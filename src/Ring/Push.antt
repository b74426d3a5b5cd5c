-- ===== src/Ring/Push.antt =====
-- `Push` of ringbuffer/ringbuffer.go appends, in place and when the slice grows.
use native.Mathlib.Nat.{mod-eq_of_lt, mod-lt}
use hollywood.Base.{
  ℕ, suc, ◌+◌, ◌%◌, ◌<◌, ◌≡◌, refl, sym, ap, ◌∙◌, inl, inr, List, [], ◌∷◌, ◌++◌, some, arith,
  get_or, set, replicate, length-set, length-replicate, get_or-set_at, get_or-set_ne,
  tabulate_append,
}
use hollywood.Ring.{Buffer, RingBuffer, add64, copy_loop, grow_back, advance, push}
use hollywood.Ring.Index.{mod_ne}
use hollywood.Ring.Loops.{length-copy_loop, copy_loop_at}
use hollywood.Ring.Validity.{IsValid, HasRoom, advance_cases, contents, Represents}

module _ {ℓ} {T : Type ℓ} (z : T) where
  -- The ring after `Push`, whose buffer has its tail on a free slot.
  abbrev stored : RingBuffer T → Buffer T → T → RingBuffer T
  stored r b x = record { len = add64 r.len 1; content = record b { items = set b.items b.tail x } }

  push-stored :
      (r : RingBuffer T) (x : T) → IsValid r → push z r x ≡ some (stored r (advance z r.content) x)
  unfolding push
  push-stored r x v = ground arith

  -- A free slot follows the tail.
  store_in_place :
      (r : RingBuffer T) (x : T)
      → IsValid r
      → suc r.len < r.content.modulus
      → Represents z
          (stored r
            (record (r.content) { tail = (r.content.head + suc r.len) % r.content.modulus })
            x)
          (contents z r ++ x ∷ [])
  store_in_place r x v free = record {
    valid = record {
      room = length-set items ((head + suc r.len) % modulus) x ∙ v.room;
      head_in = v.head_in;
      len_in = omega arith;
      tail_at = ap (λ (t : ℕ). (head + t) % modulus) (omega arith);
      small = v.small;
    };
    holds =
        tabulate_append r.len (add64 r.len 1) _ _ x (omega arith)
          (λ i h. get_or-set_ne items _ _ x z (λ e.
            mod_ne (head + suc i) (head + suc r.len) modulus (omega arith) (omega arith)
              (omega arith) (sym e)))
          (get_or-set_at items _ _ x z refl
            (omega (arith, v.room, mod-lt (head + suc r.len) {m = modulus} (omega arith))));
  }
    where
      open r.content use {items, head, modulus}

  -- The slice is full: the items move to the front of one of twice the size.
  store_grown :
      (r : RingBuffer T) (x : T)
      → IsValid r
      → HasRoom r
      → suc r.len ≡ r.content.modulus
      → Represents z (stored r (grow_back z r.content r.content.head) x) (contents z r ++ x ∷ [])
  unfolding grow_back
  store_grown r x v room full = record {
    valid = record {
      room =
          length-set moved modulus x
          ∙ length-copy_loop z modulus 0 head 0 modulus items _
          ∙ length-replicate (add64 modulus modulus) z;
      head_in = omega arith;
      len_in = omega arith;
      tail_at = sym (
          ap (λ (t : ℕ). t % add64 modulus modulus) (omega arith)
          ∙ mod-eq_of_lt {n = modulus} {m = add64 modulus modulus} (omega arith));
      small = omega arith;
    };
    holds = tabulate_append r.len (add64 r.len 1) _ _ x (omega arith) old last;
  }
    where
      open r.content use {items, head, modulus}

      moved : List T
      moved = copy_loop z modulus 0 head 0 modulus items (replicate (add64 modulus modulus) z)

      place : (i : ℕ) → i < suc r.len → (0 + suc i) % add64 modulus modulus ≡ suc i
      place i h =
          ap (λ (t : ℕ). t % add64 modulus modulus) (omega arith)
          ∙ mod-eq_of_lt {n = suc i} {m = add64 modulus modulus} (omega arith)

      old :
          (i : ℕ)
          → i < r.len
          → get_or (set moved modulus x) ((0 + suc i) % add64 modulus modulus) z
            ≡ get_or items ((head + suc i) % modulus) z
      old i h =
          ap (λ (t : ℕ). get_or (set moved modulus x) t z) (place i (omega arith))
          ∙ get_or-set_ne moved modulus (suc i) x z (omega arith)
          ∙ copy_loop_at z modulus 0 head 0 modulus items _ (suc i) (omega arith) (omega arith)
              (omega (arith, length-replicate (add64 modulus modulus) z))
              (omega (arith, length-replicate (add64 modulus modulus) z)) (omega arith)
          ∙ ap (λ (t : ℕ). get_or items ((head + t) % modulus) z) (omega arith)

      last : get_or (set moved modulus x) ((0 + suc r.len) % add64 modulus modulus) z ≡ x
      last =
          ap (λ (t : ℕ). get_or (set moved modulus x) t z) (place r.len (omega arith))
          ∙ get_or-set_at moved modulus (suc r.len) x z (sym full) (
              omega (
                arith,
                length-copy_loop z modulus 0 head 0 modulus items
                    (replicate (add64 modulus modulus) z),
                length-replicate (add64 modulus modulus) z,
              ))

  -- `Push` succeeds on a valid ring with room, appends the item, and leaves the ring valid.
  pub push-Represents :
      (r : RingBuffer T) (q : List T) (x : T)
      → Represents z r q
      → HasRoom r
      → (r' : RingBuffer T) × (push z r x ≡ some r') × Represents z r' (q ++ x ∷ [])
  push-Represents r q x p room = (
    stored r (advance z r.content) x,
    push-stored r x p.valid,
    rw (← p.holds) elim (advance_cases z r p.valid) [
      | inl (free, e) ↦ rw e (store_in_place r x p.valid free)
      | inr (full, e) ↦ rw e (store_grown r x p.valid room full)
    ],
  )
