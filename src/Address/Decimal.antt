-- ===== src/Address/Decimal.antt =====
-- A number that strconv prints is read again, and has only digits in its text.
use Prim.Native.Char.{Char, code}
use Prim.Native.Nat.{suc, ◌/◌}
use text.Mathlib.TextLemmas.{nil-append, cons-append, append-nil, append_assoc}
use hollywood.Base.{
  ℕ, zero, ◌+◌, ◌-◌, ◌*◌, ◌%◌, ◌^◌, ◌<◌, ◌≤◌, ◌≡◌, refl, sym, ap, subst, ◌∙◌, inl, inr, String,
  true, false, ◌||◌, arith, Bool-cases, ltb, nat_beq,
}
use hollywood.Pid.{concat}
use hollywood.Address.{
  digit, decimal_digits, decimal, parsed, read_digits, positive, atoi, has_byte, IsPlain,
}

-- The character of a digit.
record IsDigit (d : ℕ) : Type 0 where
  char : Char
  text_eq : digit d ≡ String.◌∷◌ char String.[]
  code_eq : code char ≡ 48 + d

digit-IsDigit : (d : ℕ) → d < 10 → IsDigit d
unfolding digit
digit-IsDigit zero h = record { char = "0"; text_eq = refl; code_eq = refl }
digit-IsDigit (suc zero) h = record { char = "1"; text_eq = refl; code_eq = refl }
digit-IsDigit (suc (suc zero)) h = record { char = "2"; text_eq = refl; code_eq = refl }
digit-IsDigit (suc (suc (suc zero))) h = record { char = "3"; text_eq = refl; code_eq = refl }
digit-IsDigit (suc (suc (suc (suc zero)))) h = record { char = "4"; text_eq = refl; code_eq = refl }
digit-IsDigit (suc (suc (suc (suc (suc zero))))) h = record {
  char = "5";
  text_eq = refl;
  code_eq = refl;
}
digit-IsDigit (suc (suc (suc (suc (suc (suc zero)))))) h = record {
  char = "6";
  text_eq = refl;
  code_eq = refl;
}
digit-IsDigit (suc (suc (suc (suc (suc (suc (suc zero))))))) h = record {
  char = "7";
  text_eq = refl;
  code_eq = refl;
}
digit-IsDigit (suc (suc (suc (suc (suc (suc (suc (suc zero)))))))) h = record {
  char = "8";
  text_eq = refl;
  code_eq = refl;
}
digit-IsDigit (suc (suc (suc (suc (suc (suc (suc (suc (suc zero))))))))) h = record {
  char = "9";
  text_eq = refl;
  code_eq = refl;
}
digit-IsDigit (suc (suc (suc (suc (suc (suc (suc (suc (suc (suc d)))))))))) h = absurd (omega arith)

digit-append :
    (d : ℕ) (h : d < 10) (t : String) → concat (digit d) t ≡ String.◌∷◌ (digit-IsDigit d h).char t
digit-append d h t =
    ap (λ s. concat s t) (digit-IsDigit d h).text_eq
    ∙ cons-append _ String.[] t
    ∙ ap (String.◌∷◌ (digit-IsDigit d h).char) (nil-append t)

-- How many numbers have that many digits at most.
abbrev limit : ℕ → ℕ
limit zero = 1
limit (suc k) = 10 * limit k

-- One digit more is read.
read_digits-digit :
    (n d : ℕ) (t : String)
    → d < 10
    → n * 10 + d < 2 ^ 64
    → read_digits n (concat (digit d) t) ≡ read_digits (n * 10 + d) t
unfolding read_digits
read_digits-digit n d t h below =
    let same : 48 + d - 48 ≡ d = omega arith in
    rw (digit-append d h t) (rw (digit-IsDigit d h).code_eq (rw same (ground arith)))

read_digits-one :
    (n : ℕ) (t : String) → n < 10 → read_digits 0 (concat (digit n) t) ≡ read_digits n t
read_digits-one n t h =
    read_digits-digit 0 n t h (omega arith) ∙ ap (λ m. read_digits m t) (omega arith)

read_digits-decimal_digits :
    (k n : ℕ) (t : String)
    → n < limit (suc k)
    → n < 2 ^ 64
    → read_digits 0 (concat (decimal_digits (suc k) n) t) ≡ read_digits n t
unfolding decimal_digits
read_digits-decimal_digits zero n t h below =
    let small : ltb n 10 ≡ true = ground arith in rw small (read_digits-one n t (omega arith))
read_digits-decimal_digits (suc k) n t h below = elim (Bool-cases (ltb n 10)) [
  | inl small ↦ rw small (read_digits-one n t (ground arith))
  | inr more ↦
      let big : 10 ≤ n = ground arith in
      rw more (
        ap (read_digits 0) (append_assoc (decimal_digits (suc k) (n / 10)) (digit (n % 10)) t)
        ∙ read_digits-decimal_digits k (n / 10) (concat (digit (n % 10)) t) (omega arith)
            (omega arith)
        ∙ read_digits-digit (n / 10) (n % 10) t (omega arith) (omega arith)
        ∙ ap (λ m. read_digits m t) (omega arith))
]

read_digits-nil : (n : ℕ) → read_digits n String.[] ≡ parsed n
unfolding read_digits
read_digits-nil n = refl

-- The text begins with a digit.
record BeginsWithDigit (text : String) : Type 0 where
  first : Char
  rest : String
  text_eq : text ≡ String.◌∷◌ first rest
  first_digit : 48 ≤ code first

digit-BeginsWithDigit : (d : ℕ) → d < 10 → BeginsWithDigit (digit d)
digit-BeginsWithDigit d h = record {
  first = (digit-IsDigit d h).char;
  rest = String.[];
  text_eq = (digit-IsDigit d h).text_eq;
  first_digit = omega (arith, (digit-IsDigit d h).code_eq);
}

decimal_digits-BeginsWithDigit :
    (k n : ℕ) → n < limit (suc k) → BeginsWithDigit (decimal_digits (suc k) n)
unfolding decimal_digits
decimal_digits-BeginsWithDigit zero n h =
    let small : ltb n 10 ≡ true = ground arith in rw small (digit-BeginsWithDigit n (omega arith))
decimal_digits-BeginsWithDigit (suc k) n h = elim (Bool-cases (ltb n 10)) [
  | inl small ↦ rw small (digit-BeginsWithDigit n (ground arith))
  | inr more ↦
      let front = decimal_digits-BeginsWithDigit k (n / 10) (omega arith) in
      rw more (record {
        first = front.first;
        rest = concat front.rest (digit (n % 10));
        text_eq =
            ap (λ s. concat s (digit (n % 10))) front.text_eq
            ∙ cons-append front.first front.rest (digit (n % 10));
        first_digit = front.first_digit;
      })
]

decimal-small : (n : ℕ) → n < 2 ^ 63 → decimal n ≡ decimal_digits 19 n
unfolding decimal
decimal-small n h = let small : ltb n (2 ^ 63) ≡ true = ground arith in rw small refl

atoi-parsed :
    (c : Char) (s : String) (n : ℕ)
    → 48 ≤ code c
    → read_digits 0 (String.◌∷◌ c s) ≡ parsed n
    → n < 2 ^ 63
    → atoi (String.◌∷◌ c s) ≡ (n, true)
unfolding atoi
atoi-parsed c s n first e h =
    let no_minus : nat_beq (code c) b'-' ≡ false = ground arith in
    let no_plus : nat_beq (code c) b'+' ≡ false = ground arith in
    let small : ltb n (2 ^ 63) ≡ true = ground arith in
    rw (no_minus, no_plus) (ap positive e ∙ rw (positive, small) refl)

-- A number that is printed is read again.
pub atoi-decimal : (n : ℕ) → n < 2 ^ 63 → atoi (decimal n) ≡ (n, true)
atoi-decimal n h =
    let front = decimal_digits-BeginsWithDigit 18 n (omega arith) in
    let read : read_digits 0 (decimal_digits 19 n) ≡ parsed n =
      ap (read_digits 0) (sym (append-nil (decimal_digits 19 n)))
      ∙ read_digits-decimal_digits 18 n String.[] (omega arith) (omega arith)
      ∙ read_digits-nil n in
    rw (decimal-small n h, front.text_eq)
      (atoi-parsed front.first front.rest n front.first_digit
        (ap (read_digits 0) (sym front.text_eq) ∙ read) h)

-- Numbers print differently.
pub decimal-injective : (m n : ℕ) → m < 2 ^ 63 → n < 2 ^ 63 → decimal m ≡ decimal n → m ≡ n
decimal-injective m n h k e = ap (λ r. r.0) (sym (atoi-decimal m h) ∙ ap atoi e ∙ atoi-decimal n k)

has_byte-append : (k : ℕ) (s t : String) → has_byte k (concat s t) ≡ (has_byte k s || has_byte k t)
unfolding has_byte
has_byte-append k String.[] t = rw (nil-append t) refl
has_byte-append k (String.◌∷◌ c s) t =
    rw (cons-append c s t) (ground (arith, has_byte-append k s t))

digit-has_byte : (k d : ℕ) → d < 10 → 58 ≤ k → has_byte k (digit d) ≡ false
unfolding has_byte
digit-has_byte k d h above =
    rw (digit-IsDigit d h).text_eq (ground (arith, (digit-IsDigit d h).code_eq))

decimal_digits-has_byte : (k f n : ℕ) → 58 ≤ k → has_byte k (decimal_digits f n) ≡ false
unfolding decimal_digits has_byte
decimal_digits-has_byte k zero n above = refl
decimal_digits-has_byte k (suc f) n above = elim (Bool-cases (ltb n 10)) [
  | inl small ↦ rw small (digit-has_byte k n (ground arith) above)
  | inr more ↦ rw more (
      has_byte-append k (decimal_digits f (n / 10)) (digit (n % 10))
      ∙ ground (
        arith,
        decimal_digits-has_byte k f (n / 10) above,
        digit-has_byte k (n % 10) (omega arith) above,
      ))
]

pub decimal-IsPlain : (n : ℕ) → n < 2 ^ 63 → IsPlain (decimal n)
decimal-IsPlain n h = subst IsPlain (sym (decimal-small n h)) record {
  no_colon = decimal_digits-has_byte b':' 19 n (omega arith);
  no_open = decimal_digits-has_byte b'[' 19 n (omega arith);
  no_close = decimal_digits-has_byte b']' 19 n (omega arith);
}
