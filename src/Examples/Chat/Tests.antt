-- ===== src/Examples/Chat/Tests.antt =====
-- Runs of examples/chat.
use hollywood.Base.{
  ◌≡◌, refl, ◌⊎◌, ◌==◌, ◌||◌, ◌&&◌, not, String, string_eq, Bool, true, false, Option, none, some,
  List, [], ◌∷◌, ◌++◌, lookup, insert, delete,
}
use hollywood.Pid.{Pid, new_pid, equals}
use hollywood.Examples.Chat.{
  Server, Msg, message, connect, disconnect, new_server, receive, started, client_receive,
  client_main,
}
use hollywood.Examples.Chat.Phases.{fresh, is_online_as, phases, ever_breaks, receive_all, Knows}
use hollywood.Examples.Chat.Forwards.{forwarded}
use hollywood.Examples.Chat.Serving.{receive_all-phases}

abbrev ann : Pid
ann = new_pid "h1:1" "client/ann"

abbrev bob : Pid
bob = new_pid "h2:1" "client/bob"

abbrev server_pid : Pid
server_pid = new_pid "h0:1" "server/primary"

abbrev is_address : String → Bool
is_address a = a == "h1:1" || a == "h2:1"

-- Ann leaves and connects again, which is ignored.
abbrev talk : List (Pid × Msg)
talk =
    (ann, connect "ann")
    ∷ (bob, connect "bob")
    ∷ (ann, message "hi" "ann")
    ∷ (ann, disconnect)
    ∷ (ann, connect "ann")
    ∷ []

talk-server :
    receive_all new_server talk
    ≡ some (record {
      clients = ("h2:1", some bob) ∷ [];
      users = ("h1:1", "ann") ∷ ("h2:1", "bob") ∷ [];
    })
unfolding receive_all receive new_server lookup insert delete
talk-server = refl

-- A disconnect of a process that is not connected.
second_disconnect : receive_all new_server (talk ++ (ann, disconnect) ∷ []) ≡ none
unfolding receive_all receive new_server lookup insert delete
second_disconnect = refl

-- A message without a sender, as soon as there is a client.
no_sender :
    receive (record new_server { clients = ("h2:1", some bob) ∷ [] }) none (message "hi" "ann")
    ≡ none
unfolding receive new_server
no_sender = refl

ann_client : client_main "ann" ("hi" ∷ "quit" ∷ "no" ∷ []) ≡ message "hi" "ann" ∷ disconnect ∷ []
unfolding client_main
ann_client = refl

ann_starts :
    client_receive (record { username = "ann"; server_pid = server_pid }) started
    ≡ (server_pid, connect "ann") ∷ []
unfolding client_receive
ann_starts = refl

receive_all-phases_example :
    ((ever_breaks (λ a. fresh) talk ≡ true) × (receive_all new_server talk ≡ none))
    ⊎ ((ever_breaks (λ a. fresh) talk ≡ false)
        × ((s : Server) × (receive_all new_server talk ≡ some s)
            × ((a : String) → Knows s a (phases (λ a. fresh) talk a))
            × ((p q : Pid) (text name : String)
                → (pids : List (Option Pid)) × (receive s (some p) (message text name)
                    ≡ some (s, pids))
                  × (forwarded q pids ≡ (
                      is_online_as q (phases (λ a. fresh) talk q.address) && not (equals q p))))))
receive_all-phases_example =
    receive_all-phases is_address talk
      ((refl, refl), ((refl, refl), (refl, (refl, ((refl, refl), tt)))))
