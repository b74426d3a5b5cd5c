-- ===== src/Ring/Validity.antt =====
-- The representation invariant of ringbuffer/ringbuffer.go and the queue that a ring holds.
use native.Mathlib.Nat.{mod-lt}
use hollywood.Base.{
  ℕ, suc, ◌+◌, ◌%◌, ◌^◌, ◌≤◌, ◌<◌, ◌≡◌, sym, ap, ◌∙◌, ◌⊎◌, inl, inr, List, arith, length, get_or,
  length-replicate, tabulate, length-tabulate,
}
use hollywood.Ring.{RingBuffer, add64, new, grow_back, advance}
use hollywood.Ring.Index.{next_tail}

-- The slot before the first item is `head`, at least one slot is free, and no index arithmetic
-- can wrap.
pub record IsValid {ℓ} {T : Type ℓ} (r : RingBuffer T) : Type 0 where
  pub room : length r.content.items ≡ r.content.modulus
  pub head_in : r.content.head < r.content.modulus
  pub len_in : r.len < r.content.modulus
  pub tail_at : r.content.tail ≡ (r.content.head + r.len) % r.content.modulus
  pub small : r.content.modulus ≤ 2 ^ 62

-- One more item can be stored without the slice outgrowing the bound.
abbrev pub HasRoom {ℓ} : {T : Type ℓ} → RingBuffer T → Type 0
HasRoom r = (suc r.len + suc r.len) ≤ 2 ^ 62

module _ {ℓ} {T : Type ℓ} (z : T) where
  pub new-IsValid : (size : ℕ) → 0 < size → size ≤ 2 ^ 62 → IsValid (new z size)
  unfolding new
  new-IsValid size h k = record {
    room = length-replicate size z;
    head_in = h;
    len_in = h;
    tail_at = omega arith;
    small = k;
  }

  -- The two outcomes of moving the tail on.
  pub advance_cases :
      (r : RingBuffer T)
      → IsValid r
      → ((suc r.len < r.content.modulus)
          × (advance z r.content
              ≡ record (r.content) { tail = (r.content.head + suc r.len) % r.content.modulus }))
        ⊎ ((suc r.len ≡ r.content.modulus)
            × (advance z r.content ≡ grow_back z r.content r.content.head))
  unfolding advance
  advance_cases r v = elim (next_tail head r.len modulus v.head_in v.len_in) [
    | inl (full, e) ↦ inr (full, ground (arith, moved, e))
    | inr (free, e, ne) ↦ inl (free, ground (arith, moved, e, ne))
  ]
    where
      open r.content use {head, tail, modulus}

      moved : add64 tail 1 % modulus ≡ ((head + r.len) % modulus + 1) % modulus
      moved =
          ap (λ (t : ℕ). t % modulus)
            (omega (arith, v.tail_at, mod-lt (head + r.len) {m = modulus} (omega arith)))

  abbrev pub item_at : RingBuffer T → ℕ → T
  item_at r i = get_or r.content.items ((r.content.head + suc i) % r.content.modulus) z

  -- The items from the oldest on.
  abbrev pub contents : RingBuffer T → List T
  contents r = tabulate r.len (item_at r)

  -- A valid ring that holds the queue `q`.
  pub record Represents (r : RingBuffer T) (q : List T) : Type ℓ where
    pub valid : IsValid r
    pub holds : contents r ≡ q

  -- The count is the queue's length.
  pub len-Represents : (r : RingBuffer T) (q : List T) → Represents r q → r.len ≡ length q
  len-Represents r q p = sym (length-tabulate r.len _) ∙ ap length p.holds
