-- ===== src/Remote/Lifecycle.antt =====
-- Start and Stop of remote/remote.go, in any order and number.
use hollywood.Base.{
  ℕ, ◌+◌, ◌≤◌, ◌≡◌, refl, Bool, true, false, ◌&&◌, List, [], ◌∷◌, ◌++◌, map, arith, if◌then◌else◌,
}
use hollywood.Remote.{
  running, stopped, Remote, new_remote, StartResult, serving, StopResult, signalled, blocks_forever,
  start, stop,
}

-- A call of Start, with whether the address can be listened on, or of Stop.
pub data Call : Type 0 where
  starting : Bool → Call
  stopping : Call

-- How many calls ended in each of the results that matter.
pub record Tally : Type 0 where
  pub served : ℕ
  pub signals : ℕ
  pub blocked : ℕ

abbrev one_if_serving : StartResult → ℕ
one_if_serving serving = 1
one_if_serving _ = 0

abbrev one_if_signalled : StopResult → ℕ
one_if_signalled signalled = 1
one_if_signalled _ = 0

abbrev one_if_blocked : StopResult → ℕ
one_if_blocked blocks_forever = 1
one_if_blocked _ = 0

unfoldable pub run : Remote → List Call → Tally
unfolding start stop
run r [] = record { served = 0; signals = 0; blocked = 0 }
run r (starting listens ∷ calls) =
    let (result, s) = start r listens in
    let t = run s calls in record t { served = one_if_serving result + t.served }
run r (stopping ∷ calls) =
    let (result, s) = stop r in
    let t = run s calls in
    record t {
      signals = one_if_signalled result + t.signals;
      blocked = one_if_blocked result + t.blocked;
    }

-- Whether every Start can listen.
unfoldable pub all_listen : List Call → Bool
all_listen [] = true
all_listen (starting listens ∷ calls) = listens && all_listen calls
all_listen (stopping ∷ calls) = all_listen calls

run-stopped :
    (calls : List Call) (c : Bool)
    → run (record { state = stopped; has_stop_channel = c }) calls
      ≡ record { served = 0; signals = 0; blocked = 0 }
unfolding run start stop
run-stopped [] c = refl
run-stopped (starting listens ∷ calls) c = rw (run-stopped calls c) refl
run-stopped (stopping ∷ calls) c = rw (run-stopped calls c) refl

run-running :
    (calls : List Call) (c : Bool)
    → let t = run (record { state = running; has_stop_channel = c }) calls in
      (t.served ≡ 0) × (t.signals ≤ (if c then 1 else 0)) × (t.blocked ≤ (if c then 0 else 1))
unfolding run start stop
run-running [] c = (refl, omega arith, omega arith)
run-running (starting listens ∷ calls) c =
    let (x, y, z) = run-running calls c in (omega (arith, x), omega (arith, y), omega (arith, z))
run-running (stopping ∷ calls) true = rw (run-stopped calls true) (refl, omega arith, omega arith)
run-running (stopping ∷ calls) false = rw (run-stopped calls false) (refl, omega arith, omega arith)

-- Any sequence of calls of Start and Stop on a new remote: at most one Start serves, at most one Stop
-- signals or blocks, and none blocks if every Start that is called can listen.
pub run-new_remote :
    (calls : List Call)
    → let t = run new_remote calls in
      (t.served ≤ 1) × (t.signals + t.blocked ≤ 1) × (all_listen calls ≡ true → t.blocked ≡ 0)
unfolding run start stop all_listen
run-new_remote [] = (omega arith, omega arith, λ e. refl)
run-new_remote (starting true ∷ calls) =
    let (x, y, z) = run-running calls true in
    (omega (arith, x), omega (arith, y, z), λ e. omega (arith, z))
run-new_remote (starting false ∷ calls) =
    let (x, y, z) = run-running calls false in
    (omega (arith, x), omega (arith, y, z), λ e. absurd (ground (arith, e)))
run-new_remote (stopping ∷ calls) =
    let (x, y, z) = run-new_remote calls in
    (omega (arith, x), omega (arith, y), λ e. omega (arith, z e))

-- A Start that cannot listen, then any calls of Start, then a Stop: that Stop blocks.
pub run-blocked :
    (calls : List Bool)
    → (run new_remote (starting false ∷ (map starting calls ++ stopping ∷ []))).blocked ≡ 1
unfolding run start stop
run-blocked [] = refl
run-blocked (listens ∷ calls) = omega (arith, run-blocked calls)
