-- ===== src/Bench.antt =====
-- _bench/main.go: engines on one host whose actors send messages to each other. A pointer to an engine
-- is its place in the slice of the benchmark; `none` is an error of a start, or a panic of rand.Intn
-- on 0.
pub mod Engines
pub mod Storm
mod Tests
use hollywood.Base.{
  ℕ, zero, suc, ◌+◌, ◌%◌, nat_eq, String, ◌==◌, Bool, Option, none, some, List, [], ◌∷◌, length,
  get_elem?, random_of, ◌>>=◌, if◌then◌else◌,
}
use hollywood.Pid.{Pid, concat}
use hollywood.Address.{decimal}
use hollywood.Routing.{Engine}
use hollywood.Context.{spawn}
use hollywood.Engine.{Remoter, new_engine_config, with_remote, new_engine}

-- The counters of the package.
pub record Counters : Type 0 where
  pub receive_count : ℕ
  pub send_count : ℕ
  pub dead_letters : ℕ

-- What the receivers tell apart.
pub data Msg : Type 0 where
  initialized : Msg
  dead_letter : Msg
  message : Msg
  ping : Msg

pub data BenchEffect : Type 0 where
  subscribes : BenchEffect
  responds_pong : BenchEffect

-- `Receive` of the monitor.
unfoldable pub monitor_receive : Counters → Msg → Counters × List BenchEffect
monitor_receive c initialized = (c, subscribes ∷ [])
monitor_receive c dead_letter = (record c { dead_letters = suc c.dead_letters }, [])
monitor_receive c message = (c, [])
monitor_receive c ping = (c, [])

-- `Receive` of a `benchMarkActor` with its own count.
unfoldable pub actor_receive : ℕ → Counters → Msg → ℕ × Counters × List BenchEffect
actor_receive count c initialized = (count, c, [])
actor_receive count c dead_letter = (count, c, [])
actor_receive count c message = (suc count, record c { receive_count = suc c.receive_count }, [])
actor_receive count c ping = (count, c, responds_pong ∷ [])

-- `Engine`
pub record BenchEngine : Type 0 where
  pub engine_id : ℕ
  pub actors : List Pid
  pub engine : Engine
  pub target_engines : List ℕ
  pub monitor : Pid

pub record Benchmark : Type 0 where
  pub engine_count : ℕ
  pub actors_per_engine : ℕ
  pub senders : ℕ
  pub engines : List BenchEngine

-- `newBenchmark`; the slice is filled by the spawns.
unfoldable pub new_benchmark : ℕ → ℕ → ℕ → Benchmark
new_benchmark engine_count actors_per_engine senders = record {
  engine_count = engine_count;
  actors_per_engine = actors_per_engine;
  senders = senders;
  engines = [];
}

-- The engines but for the engine `i`: the loop over `j`.
unfoldable pub targets_from : ℕ → ℕ → ℕ → List ℕ
targets_from i j zero = []
targets_from i j (suc n) = let rest = targets_from i (suc j) n in if i == j then rest else j ∷ rest

unfoldable pub set_targets : ℕ → ℕ → List BenchEngine → List BenchEngine
unfolding targets_from
set_targets n i [] = []
set_targets n i (e ∷ es) =
    record e { target_engines = targets_from i 0 n } ∷ set_targets n (suc i) es

abbrev pub bench_address : ℕ → String
bench_address i = concat "localhost:" (decimal (4000 + i))

-- Which remotes start, and the random ids of the processes: of the event stream,
-- of the monitor, and of an actor. `M` is what the actors send each other.
module _ (M : Type 0) (fuel : ℕ) (starts : ℕ → Bool) (drawn : ℕ → ℕ → String) where
  -- The engines from `i` on.
  unfoldable pub spawn_each : ℕ → ℕ → Option (List BenchEngine)
  spawn_each i zero = some []
  spawn_each i (suc n) =
      let rest = spawn_each (suc i) n in
      let remote : Remoter = record { address = bench_address i; starts = starts i } in
      do
        (_, e) ← new_engine {M = M} fuel (with_remote new_engine_config remote) (drawn i 0) 0
        let (_, f, pid) = spawn {M = M} fuel e 1 "monitor" [] (drawn i 1) 1
        es ← rest
        some (
            record { engine_id = i; actors = []; engine = f; target_engines = []; monitor = pid }
            ∷ es)

  -- `spawnEngines`
  unfoldable pub spawn_engines : Benchmark → Option Benchmark
  unfolding spawn_each set_targets
  spawn_engines b = do
    es ← spawn_each 0 b.engine_count
    some (record b { engines = set_targets b.engine_count 0 es })

  -- The actors from `j` on of engine `i`.
  unfoldable pub spawn_actors_of : ℕ → ℕ → ℕ → Engine → List Pid × Engine
  spawn_actors_of i j zero e = ([], e)
  spawn_actors_of i j (suc m) e =
      let id = concat "engine-" (concat (decimal i) (concat "-actor-" (decimal j))) in
      let (_, f, pid) = spawn {M = M} fuel e 2 id [] (drawn i (2 + j)) (2 + j) in
      let (pids, g) = spawn_actors_of i (suc j) m f in (pid ∷ pids, g)

  unfoldable pub fill_engines : ℕ → ℕ → List BenchEngine → List BenchEngine
  unfolding spawn_actors_of
  fill_engines m i [] = []
  fill_engines m i (e ∷ es) =
      let (pids, f) = spawn_actors_of i 0 m e.engine in
      record e { actors = pids; engine = f } ∷ fill_engines m (suc i) es

  -- `spawnActors`
  unfoldable pub spawn_actors : Benchmark → Benchmark
  unfolding fill_engines
  spawn_actors b = record b { engines = fill_engines b.actors_per_engine 0 b.engines }

-- What a round of a sender picks, with `randomEngine`, `randomTargetEngine` and `randomActor`: the
-- engine that sends, and the actor.
unfoldable pub pick : Benchmark → ℕ × ℕ × ℕ → Option (BenchEngine × Pid)
unfolding random_of
pick b (x, y, z) = do
  engine ← random_of b.engines x
  place ← random_of engine.target_engines y
  target ← get_elem? b.engines place
  pid ← random_of target.actors z
  some (engine, pid)

-- The rounds of all the senders: how many messages are sent.
unfoldable pub storm : Benchmark → List (ℕ × ℕ × ℕ) → ℕ → Option ℕ
unfolding pick
storm b [] sent = some sent
storm b (draw ∷ draws) sent = do _ ← pick b draw; storm b draws (suc sent)

-- `sendMessages`, with the number of messages that are received: the error has both counts.
unfoldable pub send_messages : Benchmark → List (ℕ × ℕ × ℕ) → ℕ → Option (Option (ℕ × ℕ))
unfolding storm
send_messages b draws received = do
  sent ← storm b draws 0
  some (if sent == received then none else some (sent, received))
