-- ===== src/Bench/Tests.antt =====
-- A small benchmark of _bench/main.go.
use hollywood.Base.{ℕ, nat_eq, ◌≡◌, refl, String, true, none, some, [], ◌∷◌, arith}
use hollywood.Routing.{user}
use hollywood.Engine.{new_engine, with_remote}
use hollywood.Bench.{
  Counters, dead_letter, message, monitor_receive, actor_receive, Benchmark, new_benchmark,
  spawn_engines, spawn_actors, send_messages, targets_from,
}
use hollywood.Bench.Storm.{IsRemote, send_messages-IsRemote}

abbrev drawn : ℕ → ℕ → String
drawn i k = "r"

abbrev ready : Benchmark
ready = elim (spawn_engines ℕ 1 (λ i. true) drawn (new_benchmark 2 1 3)) [
  | none ↦ new_benchmark 2 1 3
  | some b ↦ b
]

ready-spawned : spawn_engines ℕ 1 (λ i. true) drawn (new_benchmark 2 1 3) ≡ some ready
unfolding spawn_engines new_benchmark new_engine with_remote
ready-spawned = refl

-- Two messages of which one arrives.
send_messages-IsRemote_example :
    let c = spawn_actors ℕ 1 (λ i. true) drawn ready in
    IsRemote {N = ℕ} c (1, 0, 0) (user 5)
    × (send_messages c ((1, 0, 0) ∷ (0, 5, 2) ∷ []) 1 ≡ some (some (2, 1)))
send_messages-IsRemote_example =
    send_messages-IsRemote ℕ 1 (λ i. true) drawn 2 1 3 ready (1, 0, 0) (user 5)
      ((1, 0, 0) ∷ (0, 5, 2) ∷ []) 1 (omega arith) (omega arith) (omega arith) ready-spawned

three_targets : targets_from 1 0 4 ≡ 0 ∷ 2 ∷ 3 ∷ []
unfolding targets_from
three_targets = refl

abbrev counters : Counters
counters = record { receive_count = 0; send_count = 0; dead_letters = 0 }

one_message : actor_receive 7 counters message ≡ (8, record counters { receive_count = 1 }, [])
unfolding actor_receive
one_message = refl

one_dead_letter : monitor_receive counters dead_letter ≡ (record counters { dead_letters = 1 }, [])
unfolding monitor_receive
one_dead_letter = refl
