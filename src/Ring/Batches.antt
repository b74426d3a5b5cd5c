-- ===== src/Ring/Batches.antt =====
-- `PopN` of ringbuffer/ringbuffer.go against as many calls of `Pop`.
use hollywood.Base.{
  ℕ, zero, suc, ◌+◌, ◌^◌, ◌≤◌, ◌≡◌, refl, sym, ap, ◌∙◌, List, [], ◌∷◌, Option, none, some, arith,
  length, length-drop-le, take, drop,
}
use hollywood.Ring.{RingBuffer, pop, pop_n}
use hollywood.Ring.Validity.{Represents}
use hollywood.Ring.Pop.{pop-Represents}
use hollywood.Ring.PopN.{first_n, pop_n-Represents}
use hollywood.Ring.Deque.{Op, run, run_refines}

module _ {ℓ} {T : Type ℓ} (z : T) where
  abbrev pub cons_item : T → Option (List T × RingBuffer T) → Option (List T × RingBuffer T)
  cons_item x none = none
  cons_item x (some (xs, r)) = some (x ∷ xs, r)

  -- The reference: `Pop` until `n` items are taken or none is left.
  unfoldable pub pops : ℕ → RingBuffer T → Option (List T × RingBuffer T)
  pops zero r = some ([], r)
  pops (suc n) r = elim (pop z r) [
    | none ↦ none
    | some (none, s) ↦ some ([], s)
    | some (some x, s) ↦ cons_item x (pops n s)
  ]

  pops-Represents :
      (n : ℕ) (r : RingBuffer T) (q : List T)
      → Represents z r q
      → (s : RingBuffer T) × (pops n r ≡ some (take n q, s)) × Represents z s (drop n q)
  unfolding pops
  pops-Represents zero r q p = (r, refl, p)
  pops-Represents (suc n) r [] p =
      let (s, e, p') = pop-Represents z r [] p in (s, rw (e, pops) refl, p')
  pops-Represents (suc n) r (x ∷ q) p =
      let (s, e, p') = pop-Represents z r (x ∷ q) p in
      let (t, f, p'') = pops-Represents n s q p' in (t, rw (e, pops) (ap (cons_item x) f), p'')

  -- `PopN` of a ring that represents a queue takes the items that as many calls of `Pop` take, and says
  -- that there is none exactly for an empty queue; and afterwards no sequence of calls can tell the two
  -- rings apart, as long as the calls cannot bring them to 2 ^ 61 items.
  pub pop_n-pops :
      (r : RingBuffer T) (q : List T) (n : ℕ) (ops : List (Op T))
      → Represents z r q
      → length q + length ops + (length q + length ops) ≤ 2 ^ 62
      → (s t : RingBuffer T) × (pop_n z r n ≡ some (first_n q n, s))
        × (pops n r ≡ some (take n q, t))
        × (run z s ops ≡ run z t ops)
  pop_n-pops r q n ops p h =
      let (s, e, ps) = pop_n-Represents z r q n p in
      let (t, f, pt) = pops-Represents n r q p in
      let small : length (drop n q) + length ops + (length (drop n q) + length ops) ≤ 2 ^ 62 =
        omega (arith, length-drop-le n q) in
      (
        s,
        t,
        e,
        f,
        run_refines z ops s (drop n q) ps small ∙ sym (run_refines z ops t (drop n q) pt small),
      )
