-- ===== src/Examples/TcpServer/Tests.antt =====
-- Concrete runs of the server of examples/tcpserver/main.go.
use hollywood.Base.{
  ◌≡◌, refl, String, string_eq, nat_eq, false, none, some, List, [], ◌∷◌, lookup, insert, delete,
}
use hollywood.Pid.{Pid, new_pid, child}
use hollywood.Routing.{Letter, user, Engine, add, broadcast_event}
use hollywood.Routing.Delivery.{no_stream}
use hollywood.Options.{apply_opts, with_id}
use hollywood.Context.{Context, new_context, spawn_child, spawn_proc, new_process, options_for}
use hollywood.EventStream.{Ref}
use hollywood.Examples.TcpServer.{
  Conn, TcpMsg, bytes, new_server, reads, new_system, Step, accepts, announces, finishes, handles,
  run, receive_all, read_loop, conn_rem, session_receive, session_stopped, closes,
}
use hollywood.Examples.TcpServer.Lives.{absent, entry_of, follow, new_book}
use hollywood.Examples.TcpServer.Accepting.{session_id}
use hollywood.Examples.TcpServer.Sessions.{run-sessions}

abbrev server_pid : Pid
server_pid = new_pid "local" "server/1"

abbrev first_message : Letter TcpMsg
first_message = user (bytes "")

abbrev context : Context TcpMsg
context = new_context server_pid first_message

-- An engine without processes.
abbrev empty_engine : Engine
empty_engine = record { address = "local"; has_remote = false; event_stream = none; registry = [] }

abbrev ann : Conn
ann = record { remote_addr = "h1:1" }

abbrev bob : Conn
bob = record { remote_addr = "h2:1" }

-- Ann leaves after she was announced, bob before. Then ann dials again from the same port.
abbrev rounds : List Step
rounds =
    accepts ann "r"
    ∷ announces
    ∷ handles
    ∷ finishes 0
    ∷ accepts bob "r"
    ∷ finishes 1
    ∷ announces
    ∷ accepts ann "r"
    ∷ announces
    ∷ []

-- The map keeps bob, and ann's second connection, which is not read.
rounds-system :
    let (s, effects) =
      run 1 2 first_message (new_system empty_engine context (new_server ":6000")) rounds in
    ((receive_all s.server s.mailbox).sessions ≡ (1, bob) ∷ (2, ann) ∷ [])
    × (effects ≡ reads ann ∷ reads bob ∷ [])
unfolding run new_system new_server receive_all insert delete lookup spawn_child spawn_proc add
    new_process options_for apply_opts with_id new_context broadcast_event
rounds-system = (refl, refl)

no_sessions : (name : String) → lookup (session_id server_pid name) empty_engine.registry ≡ none
unfolding lookup
no_sessions name = refl

run-sessions_example :
    let (s, effects) =
      run 1 2 first_message (new_system empty_engine context (new_server ":6000")) rounds in
    let (effects', life) = follow 2 new_book absent rounds in
    (effects ≡ effects') × (lookup 2 (receive_all s.server s.mailbox).sessions ≡ entry_of life)
unfolding new_context new_server
run-sessions_example =
    run-sessions 0 2 first_message empty_engine none context (new_server ":6000") 2 rounds
      (no_stream refl) no_sessions refl

abbrev session_ref : Ref
session_ref = record { pointer = 0; pid = new_pid "local" "server/1/session/h1:1" }

-- Two reads, the end of the connection, and a read that does not happen.
two_reads :
    read_loop server_pid session_ref (some "a" ∷ some "b" ∷ none ∷ some "c" ∷ [])
    ≡ (new_pid "local" "server/1/handler/default", bytes "a")
      ∷ (new_pid "local" "server/1/handler/default", bytes "b")
      ∷ (server_pid, conn_rem session_ref)
      ∷ []
unfolding read_loop child
two_reads = refl

left : session_receive ann session_stopped ≡ closes ann ∷ []
unfolding session_receive
left = refl
