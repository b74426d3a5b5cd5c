-- ===== src/Ring/PopN.antt =====
-- `PopN` and `Clear` of ringbuffer/ringbuffer.go.
use native.Mathlib.Nat.{mod-eq_of_lt, mod-lt, mod-add-mod}
use hollywood.Base.{
  ℕ, suc, ◌+◌, ◌-◌, ◌%◌, ◌≤◌, ◌<◌, ◌≡◌, refl, sym, ap, ◌∙◌, List, [], ◌∷◌, Option, none, some, leb,
  true, false, arith, length, get_or, replicate, length-replicate, tabulate_resize, take-tabulate,
  drop-tabulate, tabulate-get_or, take, drop, inl, inr, Bool-cases, if◌then◌else◌, nat_beq_zero,
  leb→le, not_leb→lt, take_of_length-le, drop_of_length-le,
}
use hollywood.Ring.{RingBuffer, add64, sub64, pop_loop, pop_n, clear}
use hollywood.Ring.Loops.{pop_loop_lengths, pop_loop_at, pop_loop_keeps}
use hollywood.Ring.Validity.{IsValid, contents, item_at, Represents, len-Represents}

-- What `PopN` gives of a queue: nothing of an empty one.
abbrev pub first_n {ℓ} : {T : Type ℓ} → List T → ℕ → Option (List T)
first_n [] n = none
first_n (x ∷ q) n = some (take n (x ∷ q))

module _ {ℓ} {T : Type ℓ} (z : T) where
  abbrev emptied : RingBuffer T → ℕ → List T × List T
  emptied r count =
      pop_loop z count 0 r.content.head r.content.modulus r.content.items (replicate count z)

  abbrev taken : RingBuffer T → ℕ → RingBuffer T
  taken r count = record {
    len = sub64 r.len count;
    content = record (r.content) {
      items = (emptied r count).0;
      head = add64 r.content.head count % r.content.modulus;
    };
  }

  taken-Represents :
      (r : RingBuffer T) (count : ℕ)
      → IsValid r
      → count ≤ r.len
      → Represents z (taken r count) (drop count (contents z r))
  taken-Represents r count v h = record {
    valid = record {
      room = (pop_loop_lengths z count 0 head modulus items (replicate count z)).0 ∙ v.room;
      head_in = mod-lt _ (omega arith);
      len_in = omega arith;
      tail_at =
          v.tail_at ∙ sym (ahead (sub64 r.len count) ∙ ap (λ (t : ℕ). t % modulus) (omega arith));
      small = v.small;
    };
    holds =
        tabulate_resize (r.len - count) (sub64 r.len count) _ _ (omega arith) (λ i l.
          ap (λ (t : ℕ). get_or (emptied r count).0 t z)
            (ahead (suc i)
              ∙ ap (λ (t : ℕ). t % modulus)
                  (let s : head + count + suc i ≡ head + suc (count + i) = omega arith in s))
          ∙ pop_loop_keeps z count 0 head modulus items _ (count + i) v.head_in v.small
              (omega arith) (omega arith))
        ∙ sym (drop-tabulate count r.len (item_at z r) h);
  }
    where
      open r.content use {items, head, modulus}

      ahead : (j : ℕ) → (add64 head count % modulus + j) % modulus ≡ (head + count + j) % modulus
      ahead j = mod-add-mod (add64 head count) modulus j ∙ ap (λ (t : ℕ). t % modulus) (omega arith)

  taken_items :
      (r : RingBuffer T) (count : ℕ)
      → IsValid r
      → count ≤ r.len
      → (emptied r count).1 ≡ take count (contents z r)
  taken_items r count v h =
      sym (tabulate-get_or (emptied r count).1 z)
      ∙ tabulate_resize count (length (emptied r count).1) (item_at z r) _
          ((pop_loop_lengths z count 0 head modulus items (replicate count z)).1
            ∙ length-replicate count z)
          (λ i l.
            pop_loop_at z count 0 head modulus items (replicate count z) i v.head_in v.small
              (omega arith) (omega arith) (omega arith) (omega (arith, length-replicate count z)))
      ∙ sym (take-tabulate count r.len (item_at z r) h)
    where
      open r.content use {items, head, modulus}

  pop_n-some :
      (r : RingBuffer T) (n count : ℕ)
      → 0 < r.len
      → 0 < r.content.modulus
      → (if leb r.len n then r.len else n) ≡ count
      → pop_n z r n ≡ some (some (emptied r count).1, taken r count)
  unfolding pop_n
  pop_n-some r n count some_left sized e =
      rw (nat_beq_zero r.len some_left, nat_beq_zero r.content.modulus sized, e)

  pop_n_empty : (r : RingBuffer T) (n : ℕ) → r.len ≡ 0 → pop_n z r n ≡ some (none, r)
  unfolding pop_n
  pop_n_empty r n e = rw e

  drop_nil : (n : ℕ) → drop {A = T} n [] ≡ []
  drop_nil n = drop_of_length-le n [] (omega arith)

  -- `PopN` never faults on a valid ring: it finds nothing exactly in an empty one, and otherwise takes
  -- the first `n` items, or all of them if there are fewer.
  pub pop_n-Represents :
      (r : RingBuffer T) (q : List T) (n : ℕ)
      → Represents z r q
      → (r' : RingBuffer T) × (pop_n z r n ≡ some (first_n q n, r')) × Represents z r' (drop n q)
  pop_n-Represents r [] n p = (r, pop_n_empty r n (len-Represents z r [] p), rw (drop_nil n) p)
  pop_n-Represents r (x ∷ q) n p = elim (Bool-cases (leb r.len n)) [
    | inl all ↦ pop_all (leb→le r.len n all) all
    | inr part ↦ (
      taken r n,
      pop_n-some r n n some_left (omega arith) (rw part)
          ∙ ap (λ (out : List T). some (some out, taken r n))
              (taken_items r n p.valid (small part) ∙ ap (take n) p.holds),
      rw (← p.holds) (taken-Represents r n p.valid (small part)),
    )
  ]
    where
      size : r.len ≡ suc (length q)
      size = len-Represents z r (x ∷ q) p

      some_left : 0 < r.len
      some_left = omega (arith, size)

      small : leb r.len n ≡ false → n ≤ r.len
      small part = omega (arith, not_leb→lt r.len n part)

      pop_all :
          r.len ≤ n
          → leb r.len n ≡ true
          → (r' : RingBuffer T) × (pop_n z r n ≡ some (some (take n (x ∷ q)), r'))
            × Represents z r' (drop n (x ∷ q))
      pop_all h all = (
        taken r r.len,
        pop_n-some r n r.len some_left (omega arith) (rw all)
            ∙ ap (λ (out : List T). some (some out, taken r r.len))
                (taken_items r r.len p.valid (omega arith)
                  ∙ ap (take r.len) p.holds
                  ∙ take_of_length-le r.len (x ∷ q) (omega (arith, size))
                  ∙ sym (take_of_length-le n (x ∷ q) (omega (arith, size)))),
        rw
            (
              drop_of_length-le n (x ∷ q) (omega (arith, size)),
              ← drop_of_length-le r.len (x ∷ q) (omega (arith, size)),
              ← p.holds,
            )
            (taken-Represents r r.len p.valid (omega arith)),
      )

  -- `Clear` empties a valid ring, whose slice stays as large as it is.
  pub clear-Represents : (r : RingBuffer T) → IsValid r → Represents z (clear r) []
  unfolding clear
  clear-Represents r v = record {
    valid = record {
      room = v.room;
      head_in = omega arith;
      len_in = omega arith;
      tail_at = sym (mod-eq_of_lt {n = 0 + 0} {m = r.content.modulus} (omega arith));
      small = v.small;
    };
    holds = refl;
  }
