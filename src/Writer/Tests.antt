-- ===== src/Writer/Tests.antt =====
-- Starts of a stream writer of remote/stream_writer.go.
use hollywood.Base.{
  ℕ, ◌≡◌, refl, inl, string_eq, Bool, true, false, ◌&&◌, [], ◌∷◌, nat_beq, lookup, if◌then◌else◌,
}
use hollywood.Pid.{Pid}
use hollywood.Remote.{Streams, deliver, writer_spawned, sent, receive, receive_all, writer_pid}
use hollywood.Writer.{StreamWriter, start, send_envelope, accepted, returns, nil_dereference}
use hollywood.Writer.Connecting.{told_of, reached, start-receive, start-without_stream}

abbrev router : Pid
router = record { address = "h1"; id = "router/1" }

abbrev writer : Bool → StreamWriter
writer tls = record {
  write_to_addr = "h2";
  router_pid = router;
  pid = writer_pid "h1" "h2";
  tls = tls;
  has_raw_conn = false;
  has_conn = false;
  has_stream = false;
}

-- Nobody listens, or the third attempt succeeds.
abbrev nobody : ℕ → Bool
nobody i = false

abbrev third : ℕ → Bool
third i = nat_beq i 2

abbrev target : Pid
target = record { address = "h2"; id = "room/7" }

abbrev streams : Streams
streams = ("h2", writer_pid "h1" "h2") ∷ []

start-receive_example :
    let (t, effects, exit) = start nobody true true (writer false) in
    let connects = reached nobody && true in
    (exit ≡ returns)
    × (t.has_stream ≡ connects)
    × ((receive {M = ℕ} "h1"
          (receive_all {M = ℕ} "h1" streams (told_of effects))
          (deliver target 5)).1
        ≡ (if connects
            then sent (writer_pid "h1" "h2") target 5 ∷ []
            else writer_spawned "h2" ∷ sent (writer_pid "h1" "h2") target 5 ∷ []))
unfolding lookup
start-receive_example =
    start-receive ℕ nobody true (writer false) "h1" streams target 5 refl refl refl refl

start-without_stream_example :
    let (t, effects, exit) = start nobody true true (writer true) in
    (exit ≡ nil_dereference)
    × (told_of {M = ℕ} effects ≡ [])
    × (send_envelope accepted t ≡ (t, [], nil_dereference))
start-without_stream_example =
    start-without_stream ℕ nobody true true (writer true) accepted refl (inl (refl, refl))
