-- ===== src/Routing/Tests.antt =====
-- Runs of actor/registry.go and the sends of actor/engine.go.
use hollywood.Base.{ℕ, ◌≡◌, refl, true, false, none, some, [], ◌∷◌, lookup}
use hollywood.Pid.{Pid}
use hollywood.Routing.{
  user, poison_pill, Processer, Engine, enqueued, send, send_priority, send_poison_pill,
  broadcast_event,
}
use hollywood.Routing.Delivery.{
  HasStream, stream_at, routed, send-routed, send_poison_pill-HasStream,
  broadcast_event-unregistered,
}

abbrev stream_pid : Pid
stream_pid = record { address = "local"; id = "eventstream/1" }

abbrev stream : Processer
stream = record { handle = 0; pid = stream_pid }

abbrev actor_pid : Pid
actor_pid = record { address = "local"; id = "actor/1" }

abbrev actor : Processer
actor = record { handle = 1; pid = actor_pid }

abbrev lost_pid : Pid
lost_pid = record { address = "local"; id = "actor/2" }

abbrev engine : Engine
engine = record {
  address = "local";
  has_remote = false;
  event_stream = some stream_pid;
  registry = ("eventstream/1", stream) ∷ ("actor/1", actor) ∷ [];
}

-- The event stream is gone.
abbrev broken : Engine
broken = record engine { registry = ("actor/1", actor) ∷ [] }

engine-HasStream : HasStream engine (some stream)
unfolding lookup
engine-HasStream = stream_at stream_pid stream refl refl refl

send-routed_example :
    (send {M = ℕ} 1 engine (some lost_pid) (user 5) none
      ≡ some (routed engine (some stream) false (some lost_pid) (user 5) none))
    × (send_priority {M = ℕ} 1 engine (some lost_pid) (user 5) none
        ≡ some (routed engine (some stream) true (some lost_pid) (user 5) none))
send-routed_example =
    send-routed 0 engine (some stream) (some lost_pid) (user 5) none engine-HasStream

send_poison_pill-HasStream_example :
    send_poison_pill {M = ℕ} 1 engine true (some actor_pid) 7
    ≡ some (enqueued actor (poison_pill true 7) none false ∷ [])
unfolding lookup
send_poison_pill-HasStream_example =
    send_poison_pill-HasStream 0 engine (some stream) true actor_pid 7 engine-HasStream

broadcast_event-unregistered_example : broadcast_event {M = ℕ} 100 broken (user 5) ≡ none
unfolding lookup
broadcast_event-unregistered_example =
    broadcast_event-unregistered 100 broken stream_pid (user 5) refl refl refl

abbrev newcomer : Processer
newcomer = record { handle = 2; pid = lost_pid }

abbrev usurper : Processer
usurper = record { handle = 3; pid = lost_pid }
