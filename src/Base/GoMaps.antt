-- ===== src/Base/GoMaps.antt =====
-- A Go map as its entries, in whatever order they stand: maps without a key twice that look up the
-- same are equal in the quotient, and a loop over them meets each value equally often.
use Prim.Native.Nat.{◌+◌}
use mathlib.Core.Path.{◌≡◌, refl, sym, ap, ◌∙◌}
use mathlib.Core.Logic.{◌↔◌, inl, inr}
use mathlib.Core.Bool.{Bool, true, false}
use mathlib.Core.List.{[], ◌∷◌}
use mathlib.Core.Option.{Option, none, some}
use mathlib.Core.HLevel.{hedberg}
use native.Mathlib.Omega.{arith}
use hollywood.Base.Tests.{Eq, ◌==◌, if◌then◌else◌, Bool-cases}
use hollywood.Base.Lists.{count}
use hollywood.Base.Maps.{
  Map, values, lookup, delete, Distinct, lookup-delete, delete-Distinct, beq_refl,
}

-- A type with a test of equality is a set.
pub Eq-IsSet {ℓ} : {A : Type ℓ} ⦃e : Eq A⦄ → IsSet A
Eq-IsSet ⦃e⦄ = hedberg (λ a b. elim (Bool-cases (a == b)) [
  | inl h ↦ yes ((e.beq_iff a b).0 h)
  | inr h ↦ no (λ p. ground (arith, h, (e.beq_iff a b).1 p))
])

abbrev option_beq {ℓ} : {A : Type ℓ} ⦃e : Eq A⦄ → Option A → Option A → Bool
option_beq none none = true
option_beq none (some b) = false
option_beq (some a) none = false
option_beq (some a) (some b) = a == b

pub option_beq_iff {ℓ} :
    {A : Type ℓ} ⦃e : Eq A⦄ (x y : Option A) → (option_beq x y ≡ true) ↔ (x ≡ y)
option_beq_iff none none = (λ _. refl, λ _. refl)
option_beq_iff none (some b) = (λ h. absurd (ground (arith, h)), λ h. absurd (ground (arith, h)))
option_beq_iff (some a) none = (λ h. absurd (ground (arith, h)), λ h. absurd (ground (arith, h)))
option_beq_iff ⦃e⦄ (some a) (some b) =
    (λ h. ap some ((e.beq_iff a b).0 h), λ h. (e.beq_iff a b).1 (ground (arith, h)))

instance abbrev pub option_eq {ℓ} : {A : Type ℓ} ⦃e : Eq A⦄ → Eq (Option A)
option_eq = record { beq = option_beq; beq_iff = option_beq_iff }

module _ {ℓ} {K V : Type ℓ} ⦃e : Eq K⦄ where
  abbrev pub SameEntries : Map K V → Map K V → Type ℓ
  SameEntries m n = (k : K) → lookup k m ≡ lookup k n

  delete_absent : (k : K) (m : Map K V) → lookup k m ≡ none → delete k m ≡ m
  unfolding lookup delete
  delete_absent k [] h = refl
  delete_absent k ((i, w) ∷ m) h = ground (arith, delete_absent k m)

  count-delete :
      (p : V → Bool) (k : K) (v : V) (m : Map K V)
      → Distinct m
      → lookup k m ≡ some v
      → count p (values m) ≡ (if p v then 1 else 0) + count p (values (delete k m))
  unfolding lookup delete
  count-delete p k v [] d h = absurd (ground (arith, h))
  count-delete p k v ((i, w) ∷ m) d h = elim (Bool-cases (i == k)) [
    | inl b ↦
        let same : w ≡ v = ground (arith, h, b) in
        let gone : lookup k m ≡ none = ap (λ x. lookup x m) (sym ((e.beq_iff i k).0 b)) ∙ d.0 in
        rw (b, delete_absent k m gone, same) refl
    | inr b ↦
        let later : lookup k m ≡ some v = ground (arith, h, b) in
        rw (b) (omega (arith, count-delete p k v m d.1 later))
  ]

  pub count-values :
      (p : V → Bool) (m n : Map K V)
      → Distinct m
      → Distinct n
      → SameEntries m n
      → count p (values m) ≡ count p (values n)
  unfolding lookup
  count-values p [] [] d d' h = refl
  count-values p [] ((i, w) ∷ n) d d' h = absurd (ground (arith, h i, beq_refl i))
  count-values p ((i, w) ∷ m) n d d' h =
      let at : lookup i n ≡ some w = sym (h i) ∙ rw (beq_refl i) refl in
      let rest : SameEntries m (delete i n) = λ j. elim (Bool-cases (i == j)) [
        | inl b ↦
            ap (λ x. lookup x m) (sym ((e.beq_iff i j).0 b))
            ∙ d.0
            ∙ sym (lookup-delete i j n ∙ ap (λ c. if c then none else lookup j n) b)
        | inr b ↦
            sym (ap (λ c. if c then some w else lookup j m) b)
            ∙ h j
            ∙ sym (lookup-delete i j n ∙ ap (λ c. if c then none else lookup j n) b)
      ] in
      ap (λ k. (if p w then 1 else 0) + k)
        (count-values p m (delete i n) d.1 (delete-Distinct i n d') rest)
      ∙ sym (count-delete p i w n d' at)
