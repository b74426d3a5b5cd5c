-- ===== src/Writer.antt =====
-- remote/stream_writer.go: the connection of a stream writer, from its start to its shutdown. The
-- envelopes that it writes are modelled by Wire. The network is third-party code: whether an attempt
-- to connect, a deadline or the remote call succeeds is a parameter. Durations are in nanoseconds.
pub mod Connecting
mod Tests
use hollywood.Base.{
  ℕ, zero, suc, ◌*◌, ◌^◌, String, Bool, true, false, List, [], ◌∷◌, ◌++◌, if◌then◌else◌,
}
use hollywood.Pid.{Pid}
use hollywood.Remote.{writer_pid}

-- 500 milliseconds.
abbrev pub delay : ℕ
delay = 500 * 10 ^ 6

abbrev pub max_retries : ℕ
max_retries = 3

-- What `net.Conn` holds after the attempts: no value, the nil pointer that a failed `tls.Dial` returns,
-- which is not the nil interface, or a connection.
pub data RawConn : Type 0 where
  nil_interface : RawConn
  nil_pointer : RawConn
  connected : RawConn

-- `streamWriter`, with the fields of its connection as far as they are nil or not.
pub record StreamWriter : Type 0 where
  pub write_to_addr : String
  pub router_pid : Pid
  pub pid : Pid
  pub tls : Bool
  pub has_raw_conn : Bool
  pub has_conn : Bool
  pub has_stream : Bool

pub data Effect : Type 0 where
  inbox_started : Effect
  slept : ℕ → Effect
  router_told : Pid → String → Effect
  unreachable_event : String → Effect
  stream_closed : Effect
  conn_closed : Effect
  inbox_stopped : Effect
  unregistered : Pid → Effect
  watches_conn : Effect
  envelope_sent : Effect
  deadline_set : Effect

-- How a call ends: it returns, or dereferences nil.
pub data Exit : Type 0 where
  returns : Exit
  nil_dereference : Exit

abbrev pub Result : Type 0
Result = StreamWriter × List Effect × Exit

-- `newStreamWriter`
unfoldable pub new_stream_writer : String → Pid → String → Bool → StreamWriter
new_stream_writer engine_address router address tls = record {
  write_to_addr = address;
  router_pid = router;
  pid = writer_pid engine_address address;
  tls = tls;
  has_raw_conn = false;
  has_conn = false;
  has_stream = false;
}

-- `Shutdown`
unfoldable pub shutdown : StreamWriter → Result
shutdown s =
    let told = router_told s.router_pid s.write_to_addr ∷ unreachable_event s.write_to_addr ∷ [] in
    let closed = if s.has_stream then stream_closed ∷ [] else [] in
    (s, told ++ closed ++ inbox_stopped ∷ unregistered s.pid ∷ [], returns)

-- The value of `rawconn` that a failed attempt leaves.
abbrev pub failed_dial : Bool → RawConn
failed_dial tls = if tls then nil_pointer else nil_interface

-- The loop of `init` from attempt `i` on, with `left` attempts left; `dials i` says whether attempt `i`
-- succeeds.
unfoldable pub dial_loop : Bool → (ℕ → Bool) → ℕ → ℕ → RawConn → RawConn × List Effect
dial_loop tls dials i zero conn = (conn, [])
dial_loop tls dials i (suc left) conn =
    let (later, sleeps) = dial_loop tls dials (suc i) left (failed_dial tls) in
    if dials i then (connected, []) else (later, slept (delay * (i * 2)) ∷ sleeps)

abbrev pub after : List Effect → Result → Result
after effects (s, more, exit) = (s, effects ++ more, exit)

-- The end of `init` once there is a connection.
unfoldable pub open_stream : Bool → Bool → StreamWriter → Result
open_stream deadline_ok receive_ok s =
    let t = record s { has_raw_conn = true } in
    if deadline_ok
    then after (deadline_set ∷ []) (
        if receive_ok
        then (record t { has_conn = true; has_stream = true }, watches_conn ∷ [], returns)
        else shutdown t)
    else (t, [], returns)

-- `init`: the nil pointer is dereferenced by `SetDeadline`.
unfoldable pub init : (ℕ → Bool) → Bool → Bool → StreamWriter → Result
init dials deadline_ok receive_ok s =
    let (conn, sleeps) = dial_loop s.tls dials 0 max_retries nil_interface in
    elim conn [
      | nil_interface ↦ after sleeps (shutdown s)
      | nil_pointer ↦ (record s { has_raw_conn = true }, sleeps, nil_dereference)
      | connected ↦ after sleeps (open_stream deadline_ok receive_ok s)
    ]

-- `Start`
unfoldable pub start : (ℕ → Bool) → Bool → Bool → StreamWriter → Result
start dials deadline_ok receive_ok s =
    after (inbox_started ∷ []) (init dials deadline_ok receive_ok s)

-- How the send of an envelope on the stream ends.
pub data SendResult : Type 0 where
  accepted : SendResult
  end_of_file : SendResult
  failed : SendResult

-- The end of `Invoke`, once the envelope is built: a stream that is nil is dereferenced.
unfoldable pub send_envelope : SendResult → StreamWriter → Result
send_envelope sent s =
    if s.has_stream
    then (elim sent [
      | end_of_file ↦ (s, conn_closed ∷ [], returns)
      | accepted ↦ (s, envelope_sent ∷ deadline_set ∷ [], returns)
      | failed ↦ (s, deadline_set ∷ [], returns)
    ])
    else (s, [], nil_dereference)

-- The goroutine that waits for the end of the connection.
unfoldable pub connection_lost : StreamWriter → Result
connection_lost s = shutdown s
