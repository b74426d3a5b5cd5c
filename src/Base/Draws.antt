-- ===== src/Base/Draws.antt =====
-- `s[rand.Intn(len(s))]` of a slice, with the number that is drawn; `none` is the panic of rand.Intn on
-- an empty one.
use Prim.Native.Nat.{ℕ, ◌%◌, ◌≤◌}
use mathlib.Core.Path.{◌≡◌}
use mathlib.Core.List.{List, [], ◌∷◌}
use mathlib.Core.Option.{Option, none, some}
use native.Mathlib.Nat.{mod-lt}
use native.Mathlib.Omega.{arith}
use hollywood.Base.Lists.{length, get_elem?, get_elem?-some}

-- `s[rand.Intn(len(s))]`, with the number that is drawn.
unfoldable pub random_of {ℓ} : {A : Type ℓ} → List A → ℕ → Option A
random_of [] d = none
random_of (x ∷ xs) d = get_elem? (x ∷ xs) (d % length (x ∷ xs))

pub random_of-get_elem? {ℓ} :
    {A : Type ℓ} (xs : List A) (d : ℕ)
    → 1 ≤ length xs
    → (k : ℕ) × (x : A) × (random_of xs d ≡ some x) × (get_elem? xs k ≡ some x)
unfolding random_of
random_of-get_elem? [] d h = absurd (omega arith)
random_of-get_elem? (x ∷ xs) d h =
    let (y, at) = get_elem?-some (x ∷ xs) (d % length (x ∷ xs)) (mod-lt d (omega arith)) in
    (d % length (x ∷ xs), y, at, at)
