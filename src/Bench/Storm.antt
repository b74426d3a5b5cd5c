-- ===== src/Bench/Storm.antt =====
-- The messages of _bench/main.go: every one goes to an actor of another engine.
use text.Mathlib.TextLemmas.{append_cancel_left}
use hollywood.Base.{
  ℕ, suc, ◌+◌, ◌^◌, ◌<◌, ◌≤◌, nat_eq, ◌≡◌, ◌≢◌, refl, sym, ap, subst, ◌∙◌, String, string_eq, ◌==◌,
  Bool, false, none, some, List, [], ◌∷◌, length, get_elem?, get_elem?-some, get_elem?-lt,
  random_of-get_elem?, arith, >>=-eq-some, if◌then◌else◌,
}
use hollywood.Pid.{Pid}
use hollywood.Address.{decimal}
use hollywood.Address.Decimal.{decimal-injective}
use hollywood.Routing.{Letter, poison_pill, sent_remote, send}
use hollywood.Routing.Delivery.{send-remote}
use hollywood.Bench.{
  BenchEngine, Benchmark, new_benchmark, bench_address, set_targets, spawn_engines, spawn_actors,
  pick, storm, send_messages,
}
use hollywood.Bench.Engines.{
  AllFrom, AllFrom-get_elem?, targets_from-other, targets_from-length, IsReady, spawn_each-IsUp,
  fill_engines-IsReady, fill_engines-length,
}

bench_address-differs :
    (i j : ℕ) (a b : String)
    → i < 2 ^ 62
    → j < 2 ^ 62
    → i ≢ j
    → a ≡ bench_address i
    → b ≡ bench_address j
    → a ≢ b
bench_address-differs i j a b small_i small_j apart at_i at_j e =
    let same : 4000 + i ≡ 4000 + j =
      decimal-injective (4000 + i) (4000 + j) (omega arith) (omega arith) (
        append_cancel_left "localhost:" (decimal (4000 + i)) (decimal (4000 + j))
          (sym at_i ∙ e ∙ at_j)) in
    apart (omega (arith, same))

-- What a round comes to.
pub record IsRemote {N : Type 0} (b : Benchmark) (draw : ℕ × ℕ × ℕ) (msg : Letter N) : Type 0 where
  pub own : BenchEngine
  pub other : BenchEngine
  pub pid : Pid
  pub place : ℕ
  pub actor_place : ℕ
  pub pick_eq : pick b draw ≡ some (own, pid)
  pub other_eq : get_elem? b.engines place ≡ some other
  pub other_ne : other.engine_id ≢ own.engine_id
  pub actor_eq : get_elem? other.actors actor_place ≡ some pid
  pub send_eq :
      (fuel : ℕ)
      → send fuel own.engine (some pid) msg none ≡ some (sent_remote pid msg none false ∷ [])

module _ (M : Type 0) (fuel : ℕ) (starts : ℕ → Bool) (drawn : ℕ → ℕ → String) where
  -- The engines that a benchmark has when it is ready.
  record HasEngines (n m : ℕ) (b : Benchmark) : Type 0 where
    ready : AllFrom (IsReady bench_address n m) 0 b.engines
    size : length b.engines ≡ n

  spawned-HasEngines :
      (n m senders : ℕ) (b : Benchmark)
      → spawn_engines M fuel starts drawn (new_benchmark n m senders) ≡ some b
      → HasEngines n m (spawn_actors M fuel starts drawn b)
  unfolding spawn_engines spawn_actors new_benchmark
  spawned-HasEngines n m senders b h =
      let (es, spawned, last) = >>=-eq-some _ _ b h in
      let (all, size) = spawn_each-IsUp M fuel starts drawn 0 n es spawned in
      let same : (record {
        engine_count = n;
        actors_per_engine = m;
        senders = senders;
        engines = set_targets n 0 es;
      })
          ≡ b =
        ground (arith, last) in
      subst (λ b. HasEngines n m (spawn_actors M fuel starts drawn b)) same
        record {
          ready = fill_engines-IsReady M fuel starts drawn n m 0 es all;
          size = fill_engines-length M fuel starts drawn n m 0 es ∙ size;
        }

  pick-IsRemote :
      {N : Type 0} (n m : ℕ) (b : Benchmark) (draw : ℕ × ℕ × ℕ) (msg : Letter N)
      → 2 ≤ n
      → 1 ≤ m
      → n ≤ 2 ^ 62
      → HasEngines n m b
      → IsRemote b draw msg
  unfolding pick
  pick-IsRemote n m b (x, y, z) msg many some_actor few h =
      let P = IsReady bench_address n m in
      let (i, own, own_eq, own_at) = random_of-get_elem? b.engines x (omega (arith, h.size)) in
      let mine : P (i + 0) own = AllFrom-get_elem? P 0 i b.engines own h.ready own_at in
      let (t, place, place_eq, place_at) =
        random_of-get_elem? own.target_engines y
          (omega (arith, targets_from-length (i + 0) 0 n, ap length mine.targets_eq)) in
      let (ne, _, below) =
        targets_from-other (i + 0) 0 n t place
          (sym (ap (λ l. get_elem? l t) mine.targets_eq) ∙ place_at) in
      let (other, other_at) = get_elem?-some b.engines place (omega (arith, h.size, below)) in
      let theirs : P (place + 0) other =
        AllFrom-get_elem? P 0 place b.engines other h.ready other_at in
      let (k, pid, pid_eq, pid_at) =
        random_of-get_elem? other.actors z (omega (arith, theirs.size_eq)) in
      let far : own.engine.address ≢ pid.address =
        bench_address-differs (i + 0) (place + 0) own.engine.address pid.address
          (omega (arith, get_elem?-lt b.engines i own own_at, h.size, few))
          (omega (arith, below, few)) (λ e. ne (omega (arith, e))) mine.up.address_eq
          (theirs.here k pid pid_at) in
      record {
        own = own;
        other = other;
        pid = pid;
        place = place;
        actor_place = k;
        pick_eq = rw (own_eq, pick, place_eq, other_at, pid_eq) refl;
        other_eq = other_at;
        other_ne = λ e. ne (omega (arith, e, theirs.up.id_eq, mine.up.id_eq));
        actor_eq = pid_at;
        send_eq = λ fuel. send-remote fuel own.engine pid msg none far mine.up.remote_eq;
      }

  storm-counts :
      (n m : ℕ) (b : Benchmark) (draws : List (ℕ × ℕ × ℕ)) (sent : ℕ)
      → 2 ≤ n
      → 1 ≤ m
      → n ≤ 2 ^ 62
      → HasEngines n m b
      → storm b draws sent ≡ some (sent + length draws)
  unfolding storm
  storm-counts n m b [] sent many some_actor few h = ap some (omega arith)
  storm-counts n m b (draw ∷ draws) sent many some_actor few h =
      let r = pick-IsRemote {N = M} n m b draw (poison_pill false 0) many some_actor few h in
      rw (r.pick_eq, storm)
        (storm-counts n m b draws (suc sent) many some_actor few h ∙ ap some (omega arith))

  -- A benchmark of two engines or more, with an actor or more each and 2 ^ 62 engines at most, is
  -- spawned. Then no round of a sender panics, whatever is drawn: its message goes to the remote of
  -- the engine that sends it, for an actor of another engine. And the senders report an error, with
  -- both counts, exactly if the actors do not receive as many messages as there are rounds.
  pub send_messages-IsRemote :
      {N : Type 0} (n m senders : ℕ) (b : Benchmark) (draw : ℕ × ℕ × ℕ) (msg : Letter N)
      (draws : List (ℕ × ℕ × ℕ)) (received : ℕ)
      → 2 ≤ n
      → 1 ≤ m
      → n ≤ 2 ^ 62
      → spawn_engines M fuel starts drawn (new_benchmark n m senders) ≡ some b
      → let c = spawn_actors M fuel starts drawn b in
        IsRemote c draw msg
        × (send_messages c draws received
            ≡ some (if length draws == received then none else some (length draws, received)))
  unfolding send_messages
  send_messages-IsRemote n m senders b draw msg draws received many some_actor few spawned =
      let h = spawned-HasEngines n m senders b spawned in
      (
        pick-IsRemote n m _ draw msg many some_actor few h,
        rw (storm-counts n m _ draws 0 many some_actor few h)
            (ap (λ k. some (if k == received then none else some (k, received))) (omega arith)),
      )
