-- ===== src/Remote/Tests.antt =====
-- Runs of remote/remote.go and remote/stream_router.go.
use hollywood.Base.{ℕ, ◌+◌, ◌≤◌, ◌≡◌, true, false, List, [], ◌∷◌, if◌then◌else◌}
use hollywood.Pid.{Pid}
use hollywood.Remote.{
  new_remote, Msg, deliver, unreachable, writer_spawned, sent, writer_pid, receive, receive_all,
}
use hollywood.Remote.Lifecycle.{Call, starting, stopping, run, all_listen, run-new_remote}
use hollywood.Remote.Router.{has_writer, receive-has_writer}

abbrev calls : List Call
calls = starting true ∷ stopping ∷ starting true ∷ stopping ∷ []

run-new_remote_example :
    ((run new_remote calls).served ≤ 1)
    × ((run new_remote calls).signals + (run new_remote calls).blocked ≤ 1)
    × (all_listen calls ≡ true → (run new_remote calls).blocked ≡ 0)
run-new_remote_example = run-new_remote calls

abbrev target : Pid
target = record { address = "h2"; id = "room/7" }

abbrev traffic : List (Msg ℕ)
traffic = deliver target 1 ∷ unreachable "h2" ∷ []

receive-has_writer_example :
    (receive {M = ℕ} "h1" (receive_all "h1" [] traffic) (deliver target 2)).1 ≡ (
      if has_writer "h1" (λ a. false) traffic "h2"
      then sent (writer_pid "h1" "h2") target 2 ∷ []
      else writer_spawned "h2" ∷ sent (writer_pid "h1" "h2") target 2 ∷ [])
receive-has_writer_example = receive-has_writer "h1" traffic target 2
