-- ===== src/Ring/Pop.antt =====
-- `Pop`, `PopN` and `Clear` of ringbuffer/ringbuffer.go take items from the front.
use native.Mathlib.Nat.{mod-lt, mod-add-mod}
use mathlib.Core.List.{head?}
use hollywood.Base.{
  ℕ, suc, ◌+◌, ◌%◌, ◌<◌, ◌≡◌, sym, ap, ◌∙◌, List, [], ◌∷◌, some, arith, length, get_or, set,
  length-set, tabulate, get_or-set_ne, tabulate_resize, drop, nat_beq_zero,
}
use hollywood.Ring.{RingBuffer, add64, sub64, pop}
use hollywood.Ring.Index.{add64_lem, mod_ne}
use hollywood.Ring.Validity.{IsValid, contents, item_at, Represents, len-Represents}

cons_parts {ℓ} : {T : Type ℓ} {x y : T} {xs ys : List T} → x ∷ xs ≡ y ∷ ys → (x ≡ y) × (xs ≡ ys)
cons_parts e = (cc, cc)

module _ {ℓ} {T : Type ℓ} (z : T) where
  -- The first item, and the ring without it.
  taken_one :
      (r : RingBuffer T) (n : ℕ)
      → IsValid r
      → r.len ≡ suc n
      → let head = add64 r.content.head 1 % r.content.modulus in
        Represents z
          (record {
            len = sub64 r.len 1;
            content = record (r.content) { head = head; items = set r.content.items head z };
          })
          (tabulate n (λ i. item_at z r (suc i)))
  taken_one r n v e = record {
    valid = record {
      room = length-set items _ z ∙ v.room;
      head_in = mod-lt _ (omega arith);
      len_in = omega arith;
      tail_at = v.tail_at ∙ sym (ahead (sub64 r.len 1) ∙ ap (λ (t : ℕ). t % modulus) (omega arith));
      small = v.small;
    };
    holds = tabulate_resize n (sub64 r.len 1) _ _ (omega arith) λ i h.
        ap (λ (t : ℕ). get_or (set items (add64 head 1 % modulus) z) t z)
          (ahead (suc i)
            ∙ ap (λ (t : ℕ). t % modulus)
                (let s : head + 1 + suc i ≡ head + suc (suc i) = omega arith in s))
        ∙ get_or-set_ne items _ _ z z (λ same.
          mod_ne (head + 1) (head + suc (suc i)) modulus (omega arith) (omega arith) (omega arith) (
            ap (λ (t : ℕ). t % modulus) (let s : head + 1 ≡ add64 head 1 = omega arith in s)
            ∙ same));
  }
    where
      open r.content use {items, head, modulus}

      ahead : (j : ℕ) → (add64 head 1 % modulus + j) % modulus ≡ (head + 1 + j) % modulus
      ahead j = mod-add-mod (add64 head 1) modulus j ∙ ap (λ (t : ℕ). t % modulus) (omega arith)

  -- The queue of a ring that is not empty, split at its first item.
  split_first :
      (r : RingBuffer T) (x : T) (q : List T)
      → Represents z r (x ∷ q)
      → (item_at z r 0 ≡ x) × (tabulate (length q) (λ i. item_at z r (suc i)) ≡ q)
  split_first r x q p =
      let whole : contents z r ≡ x ∷ q = p.holds in
      let e : suc (length q) ≡ r.len = sym (len-Represents z r (x ∷ q) p) in
      cons_parts (ap (λ (k : ℕ). tabulate k (item_at z r)) e ∙ whole)

  pop-some :
      (r : RingBuffer T)
      → 0 < r.len
      → 0 < r.content.modulus
      → pop z r
        ≡ some (
          some (get_or r.content.items (add64 r.content.head 1 % r.content.modulus) z),
          record {
            len = sub64 r.len 1;
            content = record (r.content) {
              head = add64 r.content.head 1 % r.content.modulus;
              items = set r.content.items (add64 r.content.head 1 % r.content.modulus) z;
            };
          },
        )
  unfolding pop
  pop-some r some_left sized =
      rw (nat_beq_zero r.len some_left, nat_beq_zero r.content.modulus sized)

  -- `Pop` never faults on a valid ring: it finds nothing exactly in an empty one, and otherwise takes
  -- the first item.
  pub pop-Represents :
      (r : RingBuffer T) (q : List T)
      → Represents z r q
      → (r' : RingBuffer T) × (pop z r ≡ some (head? q, r')) × Represents z r' (drop 1 q)
  unfolding pop
  pop-Represents r [] p = (r, rw (len-Represents z r [] p), p)
  pop-Represents r (x ∷ q) p =
      let e = len-Represents z r (x ∷ q) p in
      let parts = split_first r x q p in
      (
        record {
          len = sub64 r.len 1;
          content = record (r.content) {
            head = add64 r.content.head 1 % r.content.modulus;
            items = set r.content.items (add64 r.content.head 1 % r.content.modulus) z;
          };
        },
        rw (
          pop-some r (omega (arith, e)) (omega arith),
          ← parts.0,
          add64_lem r.content.head 1 (omega arith),
        ),
        rw (← parts.1) (taken_one r (length q) p.valid e),
      )
