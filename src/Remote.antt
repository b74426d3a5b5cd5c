-- ===== src/Remote.antt =====
-- remote/remote.go and remote/stream_router.go: the life of the listener of a node, and the actor that
-- keeps one stream writer for each address. The network is third-party code: whether listening
-- succeeds is a parameter.
pub mod Lifecycle
pub mod Router
mod Tests
use hollywood.Base.{
  ℕ, ◌≡◌, String, Bool, true, false, string_eq, Option, none, some, List, [], ◌∷◌, ◌++◌, Map,
  lookup, insert, delete, if◌then◌else◌,
}
use hollywood.Pid.{Pid, new_pid, concat}

-- `stateInitialized`, `stateRunning` and `stateStopped`.
pub data State : Type 0 where
  initialized : State
  running : State
  stopped : State

-- `Config`; a TLS configuration is known by number, and size 0 stands for the default size.
pub record Config : Type 0 where
  pub tls_config : Option ℕ
  pub buff_size : ℕ

unfoldable pub new_remote_config : Config
new_remote_config = record { tls_config = none; buff_size = 0 }

unfoldable pub with_tls : Config → ℕ → Config
with_tls c tlsconf = record c { tls_config = some tlsconf }

unfoldable pub with_buffer_size : Config → ℕ → Config
with_buffer_size c size = record c { buff_size = size }

-- `Remote`: its state, and whether `stopCh` has been made. Its receiver is the goroutine that `Start`
-- leaves behind.
pub record Remote : Type 0 where
  pub state : State
  pub has_stop_channel : Bool

abbrev pub new_remote : Remote
new_remote = record { state = initialized; has_stop_channel = false }

pub data StartResult : Type 0 where
  already_started : StartResult
  failed_to_listen : StartResult
  serving : StartResult

pub data StopResult : Type 0 where
  was_not_running : StopResult
  signalled : StopResult
  blocks_forever : StopResult

-- `Start`, where `listens` is what `net.Listen` comes to.
unfoldable pub start : Remote → Bool → StartResult × Remote
start r listens = elim r.state [
  | initialized ↦
      if listens
      then (serving, record { state = running; has_stop_channel = true })
      else (failed_to_listen, record r { state = running })
  | _ ↦ (already_started, r)
]

-- `Stop`: a send on a nil channel blocks.
unfoldable pub stop : Remote → StopResult × Remote
stop r = elim r.state [
  | running ↦
      (if r.has_stop_channel then signalled else blocks_forever, record r { state = stopped })
  | _ ↦ (was_not_running, r)
]

-- `streams` of `streamRouter`.
abbrev pub Streams : Type 0
Streams = Map String Pid

-- The id of the writer that `newStreamWriter` makes for an address.
abbrev pub writer_pid : String → String → Pid
writer_pid engine_address address = new_pid engine_address (concat "stream" (concat "/" address))

pub data Msg (M : Type 0) : Type 0 where
  deliver : Pid → M → Msg M
  unreachable : String → Msg M

pub data Effect (M : Type 0) : Type 0 where
  writer_spawned : String → Effect M
  sent : Pid → Pid → M → Effect M

-- `deliverStream` and `handleTerminateStream`.
unfoldable pub receive : {M : Type 0} → String → Streams → Msg M → Streams × List (Effect M)
receive here streams (deliver target m) = elim (lookup target.address streams) [
  | some writer ↦ (streams, sent writer target m ∷ [])
  | none ↦
      let writer = writer_pid here target.address in
      (
        insert target.address writer streams,
        writer_spawned target.address ∷ sent writer target m ∷ [],
      )
]
receive here streams (unreachable address) = (delete address streams, [])

unfoldable pub receive_all : {M : Type 0} → String → Streams → List (Msg M) → Streams
receive_all here streams [] = streams
receive_all here streams (m ∷ ms) = receive_all here (receive here streams m).0 ms
