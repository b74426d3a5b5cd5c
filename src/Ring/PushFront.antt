-- ===== src/Ring/PushFront.antt =====
-- `PushFront` of ringbuffer/ringbuffer.go: grow first where no slot would stay free, then write
-- at the head and step back.
use native.Mathlib.Nat.{mod-eq_of_lt, mod-lt}
use hollywood.Base.{
  ℕ, suc, ◌+◌, ◌%◌, ◌<◌, ◌≡◌, sym, ap, ◌∙◌, List, ◌∷◌, some, leb, arith, get_or, set, replicate,
  length-set, length-replicate, get_or-set_at, get_or-set_ne, tabulate_ext, tabulate_prepend, inl,
  inr, Bool-cases, leb→le, not_leb→lt, nat_beq_zero,
}
use hollywood.Ring.{Buffer, RingBuffer, add64, sub64, copy_loop, grow_front, push_front}
use hollywood.Ring.Index.{head_back, mod_ne, mod-step_back}
use hollywood.Ring.Loops.{length-copy_loop, copy_loop_at}
use hollywood.Ring.Validity.{IsValid, HasRoom, contents, Represents}

module _ {ℓ} {T : Type ℓ} (z : T) where
  abbrev stored : ℕ → Buffer T → T → RingBuffer T
  stored len b x = record {
    len = add64 len 1;
    content = record b {
      items = set b.items b.head x;
      head = add64 (sub64 b.head 1) b.modulus % b.modulus;
    };
  }

  store_front :
      (r : RingBuffer T) (x : T)
      → IsValid r
      → suc r.len < r.content.modulus
      → Represents z (stored r.len r.content x) (x ∷ contents z r)
  store_front r x v free = record {
    valid = record {
      room = length-set items head x ∙ v.room;
      head_in = mod-lt _ (omega arith);
      len_in = omega arith;
      tail_at =
          v.tail_at ∙ sym (ap (λ (t : ℕ). (back + t) % modulus) (omega arith) ∙ forward r.len);
      small = v.small;
    };
    holds =
        tabulate_prepend r.len (add64 r.len 1) _ _ x (omega arith)
          (get_or-set_at items head ((back + 1) % modulus) x z
            (sym (forward 0 ∙ ap (λ (t : ℕ). t % modulus) (omega arith) ∙ mod-eq_of_lt v.head_in))
            (omega (arith, v.room, mod-lt (back + 1) {m = modulus} (omega arith))))
          (λ i h.
            ap (λ (t : ℕ). get_or (set items head x) t z) (forward (suc i))
            ∙ get_or-set_ne items head _ x z (λ e.
              mod_ne head (head + suc i) modulus (omega arith) (omega arith) (omega arith)
                (mod-eq_of_lt v.head_in ∙ e)));
  }
    where
      open r.content use {items, head, modulus}

      back : ℕ
      back = add64 (sub64 head 1) modulus % modulus

      forward : (j : ℕ) → (back + suc j) % modulus ≡ (head + j) % modulus
      forward j =
          ap (λ (t : ℕ). (t + suc j) % modulus) (head_back head modulus v.head_in v.small)
          ∙ mod-step_back head modulus j v.head_in

  grown-Represents :
      (r : RingBuffer T)
      → IsValid r
      → HasRoom r
      → suc r.len ≡ r.content.modulus
      → Represents z (record r { content = grow_front z r }) (contents z r)
  unfolding grow_front
  grown-Represents r v room full = record {
    valid = record {
      room =
          length-copy_loop z r.len 0 (add64 head 1) 1 modulus items _
          ∙ length-replicate (add64 modulus modulus) z;
      head_in = omega arith;
      len_in = omega arith;
      tail_at = sym (place r.len (omega arith));
      small = omega arith;
    };
    holds = tabulate_ext r.len _ _ λ i h.
        ap (λ (t : ℕ). get_or moved t z) (place (suc i) (omega arith))
        ∙ copy_loop_at z r.len 0 (add64 head 1) 1 modulus items _ (suc i) (omega arith)
            (omega arith) (omega (arith, length-replicate (add64 modulus modulus) z))
            (omega (arith, length-replicate (add64 modulus modulus) z)) (omega arith)
        ∙ ap (λ (t : ℕ). get_or items (t % modulus) z) (omega arith);
  }
    where
      open r.content use {items, head, modulus}

      moved : List T
      moved =
          copy_loop z r.len 0 (add64 head 1) 1 modulus items (replicate (add64 modulus modulus) z)

      place : (i : ℕ) → i < suc modulus → (0 + i) % add64 modulus modulus ≡ i
      place i h =
          ap (λ (t : ℕ). t % add64 modulus modulus) (omega arith)
          ∙ mod-eq_of_lt {n = i} {m = add64 modulus modulus} (omega arith)

  -- `PushFront` succeeds on a valid ring with room, puts the item before all others, and leaves the
  -- ring valid.
  pub push_front-Represents :
      (r : RingBuffer T) (q : List T) (x : T)
      → Represents z r q
      → HasRoom r
      → (r' : RingBuffer T) × (push_front z r x ≡ some r') × Represents z r' (x ∷ q)
  unfolding push_front grow_front
  push_front-Represents r q x p room = elim (Bool-cases (leb (sub64 r.content.modulus 1) r.len)) [
    | inl full ↦ (
      stored r.len (grow_front z r) x,
      rw (full, nat_beq_zero r.content.modulus (omega arith)),
      let g =
            grown-Represents r p.valid room
              (omega (arith, leb→le (sub64 r.content.modulus 1) r.len full)) in
          rw (← p.holds, ← g.holds)
            (store_front (record r { content = grow_front z r }) x g.valid (omega arith)),
    )
    | inr free ↦ (
      stored r.len r.content x,
      rw (free, nat_beq_zero r.content.modulus (omega arith)),
      rw (← p.holds) (
          store_front r x p.valid
            (omega (arith, not_leb→lt (sub64 r.content.modulus 1) r.len free))),
    )
  ]
