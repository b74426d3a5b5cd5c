-- ===== src/Base/Tabulate.antt =====
-- The list of a function's first values, by which the windows of the ring buffer are compared.
use Prim.Native.Nat.{ℕ, zero, suc, ◌+◌, ◌-◌, ◌≤◌, ◌<◌}
use mathlib.Core.Path.{◌≡◌, refl, ap, ap₂, ◌∙◌}
use mathlib.Core.List.{List, [], ◌∷◌, ◌++◌}
use native.Mathlib.Omega.{arith}
use hollywood.Base.Lists.{length, take, drop, get_or}

module _ {ℓ} {A : Type ℓ} where
  abbrev pub tabulate : ℕ → (ℕ → A) → List A
  tabulate zero f = []
  tabulate (suc n) f = f 0 ∷ tabulate n (λ i. f (suc i))

  pub length-tabulate : (n : ℕ) (f : ℕ → A) → length (tabulate n f) ≡ n
  length-tabulate zero f = refl
  length-tabulate (suc n) f = ap suc (length-tabulate n (λ i. f (suc i)))

  pub tabulate_ext :
      (n : ℕ) (f g : ℕ → A) → ((i : ℕ) → i < n → f i ≡ g i) → tabulate n f ≡ tabulate n g
  tabulate_ext zero f g h = refl
  tabulate_ext (suc n) f g h =
      ap₂ ◌∷◌ (h 0 (omega arith)) (tabulate_ext n _ _ (λ i p. h (suc i) (omega arith)))

  pub tabulate-snoc : (n : ℕ) (f : ℕ → A) → tabulate (suc n) f ≡ tabulate n f ++ f n ∷ []
  tabulate-snoc zero f = refl
  tabulate-snoc (suc n) f = ap (◌∷◌ (f 0)) (tabulate-snoc n (λ i. f (suc i)))

  pub take-tabulate : (k n : ℕ) (f : ℕ → A) → k ≤ n → take k (tabulate n f) ≡ tabulate k f
  take-tabulate zero n f h = refl
  take-tabulate (suc k) zero f h = absurd (omega arith)
  take-tabulate (suc k) (suc n) f h =
      ap (◌∷◌ (f 0)) (take-tabulate k n (λ i. f (suc i)) (omega arith))

  pub drop-tabulate :
      (k n : ℕ) (f : ℕ → A) → k ≤ n → drop k (tabulate n f) ≡ tabulate (n - k) (λ i. f (k + i))
  drop-tabulate zero n f h =
      ap₂ tabulate (omega arith) (λ i j. ap f (let e : j ≡ 0 + j = omega arith in e) i)
  drop-tabulate (suc k) zero f h = absurd (omega arith)
  drop-tabulate (suc k) (suc n) f h = rw (drop-tabulate k n (λ i. f (suc i)) (omega arith)) (
      ap₂ tabulate (omega arith)
        (λ i j. ap f (let e : suc (k + j) ≡ suc k + j = omega arith in e) i))

  -- Two tabulations of which one has one more value, at the end or at the front.
  pub tabulate_append :
      (n n' : ℕ) (f g : ℕ → A) (x : A)
      → n' ≡ suc n
      → ((i : ℕ) → i < n → g i ≡ f i)
      → g n ≡ x
      → tabulate n' g ≡ tabulate n f ++ x ∷ []
  tabulate_append n n' f g x e old new =
      ap (λ (k : ℕ). tabulate k g) e
      ∙ tabulate-snoc n g
      ∙ ap₂ (λ (l : List A) (y : A). l ++ y ∷ []) (tabulate_ext n g f old) new

  pub tabulate_prepend :
      (n n' : ℕ) (f g : ℕ → A) (x : A)
      → n' ≡ suc n
      → g 0 ≡ x
      → ((i : ℕ) → i < n → g (suc i) ≡ f i)
      → tabulate n' g ≡ x ∷ tabulate n f
  tabulate_prepend n n' f g x e new old =
      ap (λ (k : ℕ). tabulate k g) e ∙ ap₂ ◌∷◌ new (tabulate_ext n (λ i. g (suc i)) f old)

  pub tabulate-get_or : (l : List A) (d : A) → tabulate (length l) (λ i. get_or l i d) ≡ l
  tabulate-get_or [] d = refl
  tabulate-get_or (x ∷ l) d = ap (◌∷◌ x) (tabulate-get_or l d)

  pub tabulate_resize :
      (n n' : ℕ) (f g : ℕ → A)
      → n' ≡ n
      → ((i : ℕ) → i < n → g i ≡ f i)
      → tabulate n' g ≡ tabulate n f
  tabulate_resize n n' f g e h = ap (λ (k : ℕ). tabulate k g) e ∙ tabulate_ext n g f h
