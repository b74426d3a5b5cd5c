-- ===== src/Base/Maps.antt =====
-- Go maps as association lists: the order of the list is the order in which a `range` loop meets
-- the entries, which Go leaves open, so the theorems hold of every order.
use Prim.Native.Nat.{◌≤◌}
use mathlib.Core.Path.{◌≡◌, refl, sym, ap, ◌∙◌}
use mathlib.Core.Logic.{inl, inr}
use mathlib.Core.Bool.{Bool, true, false}
use mathlib.Core.List.{List, [], ◌∷◌, ◌++◌, map}
use mathlib.Core.Option.{Option, none, some}
use native.Mathlib.Omega.{arith}
use hollywood.Base.Tests.{Eq, ◌==◌, if◌then◌else◌, Bool-cases}
use hollywood.Base.Lists.{length}

abbrev pub Map {ℓ} : Type ℓ → Type ℓ → Type ℓ
Map K V = List (K × V)

abbrev pub keys {ℓ} : {K V : Type ℓ} → Map K V → List K
keys = map (λ e. e.0)

abbrev pub values {ℓ} : {K V : Type ℓ} → Map K V → List V
values = map (λ e. e.1)

abbrev pub is_some {ℓ} : {A : Type ℓ} → Option A → Bool
is_some none = false
is_some (some a) = true

pub beq_refl {ℓ} : {K : Type ℓ} ⦃e : Eq K⦄ (k : K) → (k == k) ≡ true
beq_refl ⦃e⦄ k = (e.beq_iff k k).1 refl

-- A test that fails one way fails the other way.
not_beq_sym {ℓ} : {K : Type ℓ} ⦃e : Eq K⦄ (i k : K) → (i == k) ≡ false → (k == i) ≡ false
not_beq_sym ⦃e⦄ i k h = ground (arith, e.beq_iff i k, e.beq_iff k i)

module _ {ℓ} {K V : Type ℓ} ⦃e : Eq K⦄ where
  -- `delete(m, k)`
  unfoldable pub delete : K → Map K V → Map K V
  delete k [] = []
  delete k ((j, w) ∷ m) = if j == k then delete k m else (j, w) ∷ delete k m

  -- `m[k]`, with `none` for a missing key.
  unfoldable pub lookup : K → Map K V → Option V
  lookup k [] = none
  lookup k ((j, w) ∷ rest) = if j == k then some w else lookup k rest

  -- `m[k] = v`
  unfoldable pub insert : K → V → Map K V → Map K V
  insert k v [] = (k, v) ∷ []
  insert k v (entry ∷ rest) = if entry.0 == k then (k, v) ∷ rest else entry ∷ insert k v rest

  pub lookup-insert :
      (k x : K) (v : V) (m : Map K V)
      → lookup x (insert k v m) ≡ (if k == x then some v else lookup x m)
  unfolding insert lookup
  lookup-insert k x v [] = refl
  lookup-insert k x v ((i, u) ∷ rest) =
      ground (arith, lookup-insert k x v rest, e.beq_iff i k, e.beq_iff i x, e.beq_iff k x)

  pub lookup-delete :
      (k j : K) (m : Map K V) → lookup j (delete k m) ≡ (if k == j then none else lookup j m)
  unfolding lookup delete
  lookup-delete k j [] = ground arith
  lookup-delete k j ((i, w) ∷ m) =
      ground (arith, e.beq_iff k j, e.beq_iff i k, e.beq_iff i j, lookup-delete k j m)

  pub length-delete-le : (k : K) (m : Map K V) → length (delete k m) ≤ length m
  unfolding delete
  length-delete-le k [] = omega arith
  length-delete-le k ((i, w) ∷ m) = ground (arith, length-delete-le k m)

  -- A key that is not there is appended; one that is there keeps its place.
  pub insert_absent :
      (k : K) (v : V) (m : Map K V) → lookup k m ≡ none → insert k v m ≡ m ++ (k, v) ∷ []
  unfolding lookup insert
  insert_absent k v [] h = refl
  insert_absent k v ((i, w) ∷ m) h = ground (arith, insert_absent k v m)

  -- No key stands twice: true of every map that insertions and deletions build.
  abbrev pub Distinct : Map K V → Type ℓ
  Distinct [] = Unit
  Distinct ((k, v) ∷ m) = (lookup k m ≡ none) × Distinct m

  pub insert-Distinct : (k : K) (v : V) (m : Map K V) → Distinct m → Distinct (insert k v m)
  unfolding insert lookup
  insert-Distinct k v [] h = (refl, tt)
  insert-Distinct k v ((i, w) ∷ m) h = elim (Bool-cases (i == k)) [
    | inl b ↦ rw (b, insert) (ap (λ x. lookup x m) (sym ((e.beq_iff i k).0 b)) ∙ h.0, h.1)
    | inr b ↦
        rw (b, insert)
          (lookup-insert k i v m ∙ rw (not_beq_sym i k b) h.0, insert-Distinct k v m h.1)
  ]

  pub delete-Distinct : (k : K) (m : Map K V) → Distinct m → Distinct (delete k m)
  unfolding delete lookup
  delete-Distinct k [] h = tt
  delete-Distinct k ((i, w) ∷ m) h = elim (Bool-cases (i == k)) [
    | inl b ↦ rw (b, delete) (delete-Distinct k m h.1)
    | inr b ↦
        rw (b, delete) (lookup-delete k i m ∙ rw (not_beq_sym i k b) h.0, delete-Distinct k m h.1)
  ]
