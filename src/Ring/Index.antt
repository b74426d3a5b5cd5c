-- ===== src/Ring/Index.antt =====
-- The index arithmetic of ringbuffer/ringbuffer.go: where `(head + i) % mod` falls.
use native.Mathlib.Nat.{mod-eq_of_lt, mod-eq-sub-mod, mod-add-mod, add-mod_right}
use native.Mathlib.Decide.{dec_lt}
use hollywood.Base.{ℕ, suc, ◌+◌, ◌-◌, ◌%◌, ◌^◌, ◌≤◌, ◌<◌, ◌≡◌, ap, ◌∙◌, ◌≢◌, ◌⊎◌, inl, inr, arith}
use hollywood.Ring.{add64, sub64}

-- Below twice the modulus, a remainder is the number itself or the number less the modulus.
pub mod_cases : (x m : ℕ) → x < m + m → ((x < m) × (x % m ≡ x)) ⊎ ((m ≤ x) × (x % m ≡ x - m))
mod_cases x m h = elim (dec_lt x m) [
  | yes p ↦ inl (p, mod-eq_of_lt p)
  | no p ↦ inr (
    omega arith,
    omega (
      arith,
      mod-eq-sub-mod {n = x} {m = m} (omega arith),
      mod-eq_of_lt {n = x - m} {m = m} (omega arith),
    ),
  )
]

-- Two numbers that differ by less than the modulus have different remainders.
pub mod_ne : (x y m : ℕ) → x < y → y < x + m → y < m + m → x % m ≢ y % m
mod_ne x y m h k l = omega (arith, mod_cases x m (omega arith), mod_cases y m l)

-- What `Push` finds at the place after the tail: the head, exactly when one slot is left.
pub next_tail :
    (head len m : ℕ)
    → head < m
    → len < m
    → ((suc len ≡ m) × (((head + len) % m + 1) % m ≡ head))
      ⊎ ((suc len < m)
          × (((head + len) % m + 1) % m ≡ (head + suc len) % m)
          × ((head + suc len) % m ≢ head))
next_tail head len m h k = omega (
  arith,
  mod_cases (head + len) m (omega arith),
  mod_cases ((head + len) % m + 1) m (omega (arith, mod_cases (head + len) m (omega arith))),
  mod_cases (head + suc len) m (omega arith),
)

-- `% 2 ^ 64` does nothing to small sums.
pub add64_lem : (a b : ℕ) → a + b < 2 ^ 64 → add64 a b ≡ a + b
add64_lem a b h = omega arith

pub sub64_lem : (a b : ℕ) → b ≤ a → a < 2 ^ 64 → sub64 a b ≡ a - b
sub64_lem a b h k = omega arith

-- The step back of `PushFront`.
pub head_back :
    (head m : ℕ) → head < m → m ≤ 2 ^ 62 → add64 (sub64 head 1) m % m ≡ (head + (m - 1)) % m
head_back head m h k = ap (λ (t : ℕ). t % m) (omega arith)

-- A place after the step back is the place before it in the old count.
pub mod-step_back : (head m j : ℕ) → head < m → ((head + (m - 1)) % m + suc j) % m ≡ (head + j) % m
mod-step_back head m j h =
    mod-add-mod (head + (m - 1)) m (suc j)
    ∙ ap (λ (t : ℕ). t % m) (let e : head + (m - 1) + suc j ≡ head + j + m = omega arith in e)
    ∙ add-mod_right (head + j) m
