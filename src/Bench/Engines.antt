-- ===== src/Bench/Engines.antt =====
-- The engines of _bench/main.go once they and their actors have been spawned.
use hollywood.Base.{
  ℕ, zero, suc, ◌+◌, ◌<◌, ◌≤◌, nat_eq, ◌≡◌, ◌≢◌, refl, sym, ap, subst, ◌∙◌, inl, inr, String, ◌==◌,
  Bool, true, false, some, List, [], ◌∷◌, length, get_elem?, arith, Bool-cases, >>=-eq-some,
  if◌then◌else◌,
}
use hollywood.Pid.{Pid, concat}
use hollywood.Address.{decimal}
use hollywood.Routing.{Engine, Processer, Outcome, add}
use hollywood.Context.{spawn, spawn_proc, new_process, options_for}
use hollywood.Engine.{Remoter, new_engine_config, with_remote, new_engine, empty_engine}
use hollywood.Bench.{
  BenchEngine, targets_from, set_targets, bench_address, spawn_each, spawn_actors_of, fill_engines,
}

-- Something of every engine, with its place.
abbrev pub AllFrom : (ℕ → BenchEngine → Type 0) → ℕ → List BenchEngine → Type 0
AllFrom P i [] = Unit
AllFrom P i (e ∷ es) = P i e × AllFrom P (suc i) es

pub AllFrom-get_elem? :
    (P : ℕ → BenchEngine → Type 0) (i k : ℕ) (es : List BenchEngine) (e : BenchEngine)
    → AllFrom P i es
    → get_elem? es k ≡ some e
    → P (k + i) e
AllFrom-get_elem? P i k [] e h at = absurd (ground (arith, at))
AllFrom-get_elem? P i zero (x ∷ es) e h at =
    let same : x ≡ e = ground (arith, at) in
    let place : i ≡ 0 + i = omega arith in subst (λ a. P a e) place (subst (P i) same h.0)
AllFrom-get_elem? P i (suc k) (x ∷ es) e h at =
    let place : k + suc i ≡ suc k + i = omega arith in
    subst (λ a. P a e) place (AllFrom-get_elem? P (suc i) k es e h.1 at)

module _ (M : Type 0) (fuel : ℕ) where
  add-kept :
      (e : Engine) (proc : Processer)
      → ((add {M = M} fuel e proc).1.address ≡ e.address)
        × ((add {M = M} fuel e proc).1.has_remote ≡ e.has_remote)
  unfolding add
  add-kept e proc = (ground arith, ground arith)

  new_engine-remote :
      (remote : Remoter) (drawn : String) (handle : ℕ) (outcome : Outcome M) (e : Engine)
      → new_engine fuel (with_remote new_engine_config remote) drawn handle ≡ some (outcome, e)
      → (e.address ≡ remote.address) × (e.has_remote ≡ true)
  unfolding new_engine with_remote spawn spawn_proc
  new_engine-remote remote drawn handle outcome e h =
      let proc =
        new_process (empty_engine remote.address true) (options_for 0 "eventstream" [] drawn)
          handle in
      ground (arith, h, add-kept (empty_engine remote.address true) proc)

-- The loop over the targets of engine `i`: all but itself, and at least all but one.
pub targets_from-other :
    (i j n k t : ℕ) → get_elem? (targets_from i j n) k ≡ some t → (t ≢ i) × (j ≤ t) × (t < j + n)
unfolding targets_from
targets_from-other i j zero k t h = absurd (ground (arith, h))
targets_from-other i j (suc n) k t h =
    let rest = targets_from i (suc j) n in
    elim (Bool-cases (i == j)) [
      | inl e ↦
          let (ne, low, high) =
            targets_from-other i (suc j) n k t
              (sym (ap (λ b. get_elem? (if b then rest else j ∷ rest) k) e) ∙ h) in
          (ne, omega arith, omega arith)
      | inr e ↦
          next (λ k'. targets_from-other i (suc j) n k' t) k e
            (sym (ap (λ b. get_elem? (if b then rest else j ∷ rest) k) e) ∙ h)
    ]
  where
    next :
        ((k : ℕ)
          → get_elem? (targets_from i (suc j) n) k ≡ some t
          → (t ≢ i) × (suc j ≤ t) × (t < suc j + n))
        → (k : ℕ) → (i == j) ≡ false
        → get_elem? (j ∷ targets_from i (suc j) n) k ≡ some t
        → (t ≢ i) × (j ≤ t) × (t < j + suc n)
    next later zero e h =
        let same : j ≡ t = ground (arith, h) in (ground (arith, same, e), omega arith, omega arith)
    next later (suc k) e h = let (ne, low, high) = later k h in (ne, omega arith, omega arith)

targets_from-past : (i j n : ℕ) → i < j → length (targets_from i j n) ≡ n
unfolding targets_from
targets_from-past i j zero h = refl
targets_from-past i j (suc n) h = ground (arith, targets_from-past i (suc j) n (omega arith))

pub targets_from-length : (i j n : ℕ) → n ≤ length (targets_from i j n) + 1
unfolding targets_from
targets_from-length i j zero = omega arith
targets_from-length i j (suc n) =
    ground (arith, targets_from-length i (suc j) n, targets_from-past i (suc j) n)

-- An engine that has been spawned: its number, its address and its remote.
pub record IsUp (address : ℕ → String) (i : ℕ) (e : BenchEngine) : Type 0 where
  pub id_eq : e.engine_id ≡ i
  pub address_eq : e.engine.address ≡ address i
  pub remote_eq : e.engine.has_remote ≡ true

module _ (M : Type 0) (fuel : ℕ) (starts : ℕ → Bool) (drawn : ℕ → ℕ → String) where
  pub spawn_each-IsUp :
      (i n : ℕ) (es : List BenchEngine)
      → spawn_each M fuel starts drawn i n ≡ some es
      → AllFrom (IsUp bench_address) i es × (length es ≡ n)
  unfolding spawn_each spawn spawn_proc
  spawn_each-IsUp i zero es h =
      let same : [] ≡ es = ground (arith, h) in
      subst (λ l. AllFrom (IsUp bench_address) i l × (length l ≡ 0)) same (tt, refl)
  spawn_each-IsUp i (suc n) es h =
      let ((outcome, e), made, h') = >>=-eq-some _ _ es h in
      let (rest, spawned, last) = >>=-eq-some _ _ es h' in
      let (all, size) = spawn_each-IsUp (suc i) n rest spawned in
      let (address_eq, remote_eq) = new_engine-remote M fuel _ (drawn i 0) 0 outcome e made in
      let (kept, kept') =
        add-kept M fuel e (new_process e (options_for 1 "monitor" [] (drawn i 1)) 1) in
      let same : (record {
        engine_id = i;
        actors = [];
        engine = (spawn {M = M} fuel e 1 "monitor" [] (drawn i 1) 1).1;
        target_engines = [];
        monitor = (spawn {M = M} fuel e 1 "monitor" [] (drawn i 1) 1).2;
      }
            ∷ rest)
          ≡ es =
        ground (arith, last) in
      subst (λ l. AllFrom (IsUp bench_address) i l × (length l ≡ suc n)) same
        (
          (
            record { id_eq = refl; address_eq = kept ∙ address_eq; remote_eq = kept' ∙ remote_eq },
            all,
          ),
          ap suc size,
        )

cons-here :
    (own : Pid) (pids : List Pid) (address : String)
    → own.address ≡ address
    → ((k : ℕ) (pid : Pid) → get_elem? pids k ≡ some pid → pid.address ≡ address)
    → (k : ℕ) (pid : Pid) → get_elem? (own ∷ pids) k ≡ some pid
    → pid.address ≡ address
cons-here own pids address first rest zero pid h = ground (arith, h, first)
cons-here own pids address first rest (suc k) pid h = rest k pid h

-- An engine with its targets and actors.
pub record IsReady (address : ℕ → String) (n m i : ℕ) (e : BenchEngine) : Type 0 where
  pub up : IsUp address i e
  pub targets_eq : e.target_engines ≡ targets_from i 0 n
  pub size_eq : length e.actors ≡ m
  pub here : (k : ℕ) (pid : Pid) → get_elem? e.actors k ≡ some pid → pid.address ≡ address i

module _ (M : Type 0) (fuel : ℕ) (starts : ℕ → Bool) (drawn : ℕ → ℕ → String) where
  spawn_actors_of-kept :
      (i j m : ℕ) (e : Engine)
      → let (pids, f) = spawn_actors_of M fuel starts drawn i j m e in
        (f.address ≡ e.address)
        × (f.has_remote ≡ e.has_remote)
        × (length pids ≡ m)
        × ((k : ℕ) (pid : Pid) → get_elem? pids k ≡ some pid → pid.address ≡ e.address)
  unfolding spawn_actors_of spawn spawn_proc new_process
  spawn_actors_of-kept i j zero e = (refl, refl, refl, λ k pid h. absurd (ground (arith, h)))
  spawn_actors_of-kept i j (suc m) e =
      let id = concat "engine-" (concat (decimal i) (concat "-actor-" (decimal j))) in
      let proc = new_process e (options_for 2 id [] (drawn i (2 + j))) (2 + j) in
      let f = (add {M = M} fuel e proc).1 in
      let (kept, kept') = add-kept M fuel e proc in
      let (address_eq, remote_eq, size_eq, here) = spawn_actors_of-kept i (suc j) m f in
      (
        address_eq ∙ kept,
        remote_eq ∙ kept',
        ap suc size_eq,
        cons-here (new_process e (options_for 2 id [] (drawn i (2 + j))) (2 + j)).pid
            (spawn_actors_of M fuel starts drawn i (suc j) m f).0 e.address refl
            (λ k pid at. here k pid at ∙ kept),
      )

  pub fill_engines-IsReady :
      (n m i : ℕ) (es : List BenchEngine)
      → AllFrom (IsUp bench_address) i es
      → AllFrom
          (IsReady bench_address n m)
          i
          (fill_engines M fuel starts drawn m i (set_targets n i es))
  unfolding fill_engines set_targets
  fill_engines-IsReady n m i [] h = tt
  fill_engines-IsReady n m i (e ∷ es) h =
      let (address_eq, remote_eq, size_eq, here) = spawn_actors_of-kept i 0 m e.engine in
      (
        record {
          up = record {
            id_eq = h.0.id_eq;
            address_eq = address_eq ∙ h.0.address_eq;
            remote_eq = remote_eq ∙ h.0.remote_eq;
          };
          targets_eq = refl;
          size_eq = size_eq;
          here = λ k pid at. here k pid at ∙ h.0.address_eq;
        },
        fill_engines-IsReady n m (suc i) es h.1,
      )

  pub fill_engines-length :
      (n m i : ℕ) (es : List BenchEngine)
      → length (fill_engines M fuel starts drawn m i (set_targets n i es)) ≡ length es
  unfolding fill_engines set_targets
  fill_engines-length n m i [] = refl
  fill_engines-length n m i (e ∷ es) = ap suc (fill_engines-length n m (suc i) es)
