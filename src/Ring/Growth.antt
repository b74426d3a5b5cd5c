-- ===== src/Ring/Growth.antt =====
-- How large the slice of a ring from ringbuffer/ringbuffer.go grows.
use hollywood.Base.{
  ℕ, suc, ◌+◌, ◌*◌, ◌^◌, ◌≤◌, ◌<◌, ◌≡◌, refl, inl, inr, List, [], ◌∷◌, Option, none, some, arith,
  length, max, leb→le, Option-cases, length-append,
}
use hollywood.Ring.{
  RingBuffer, sub64, new, advance, grow_back, grow_front, push, pop, push_front, pop_n, clear,
}
use hollywood.Ring.Validity.{Represents, IsValid, HasRoom, advance_cases, len-Represents}
use hollywood.Ring.Deque.{
  Op, push_back, push_first, pop_one, pop_many, clear_all, Reply, spec_step, step, step-Represents,
  new-Represents, length-spec_step,
}

-- The slice of that many slots grows, if at all, to no more than twice that many items.
abbrev Grown : ℕ → ℕ → ℕ → Type 0
Grown slots items slots' = (slots ≤ slots') × (slots' ≤ max slots (2 * items))

-- The length of a queue when it is longest, from now on and through the calls.
unfoldable pub longest {ℓ} : {T : Type ℓ} → List T → List (Op T) → ℕ
longest q [] = length q
longest q (op ∷ ops) = max (length q) (longest (spec_step q op).1 ops)

length-longest {ℓ} : {T : Type ℓ} (q : List T) (ops : List (Op T)) → length q ≤ longest q ops
unfolding longest
length-longest q [] = omega arith
length-longest q (op ∷ ops) = omega arith

module _ {ℓ} {T : Type ℓ} (z : T) where
  -- The ring after the calls.
  unfoldable pub run_ring : RingBuffer T → List (Op T) → Option (RingBuffer T)
  run_ring r [] = some r
  run_ring r (op ∷ ops) = elim (step z r op) [ none ↦ none | some (reply, r') ↦ run_ring r' ops ]

  advance-Grown :
      (r : RingBuffer T)
      → IsValid r
      → HasRoom r
      → Grown r.content.modulus (suc r.len) (advance z r.content).modulus
  unfolding grow_back
  advance-Grown r v room = elim (advance_cases z r v) [
    | inl (free, e) ↦ rw e (omega arith, omega arith)
    | inr (full, e) ↦ rw e (omega arith, omega arith)
  ]

  push-Grown :
      (r r' : RingBuffer T) (x : T)
      → IsValid r
      → HasRoom r
      → push z r x ≡ some r'
      → Grown r.content.modulus (suc r.len) r'.content.modulus
  unfolding push
  push-Grown r r' x v room e =
      let (low, high) = advance-Grown r v room in (ground (arith, low, e), ground (arith, high, e))

  push_front-Grown :
      (r r' : RingBuffer T) (x : T)
      → IsValid r
      → HasRoom r
      → push_front z r x ≡ some r'
      → Grown r.content.modulus (suc r.len) r'.content.modulus
  unfolding push_front grow_front
  push_front-Grown r r' x v room e = (
    ground (arith, leb→le (sub64 r.content.modulus 1) r.len, e),
    ground (arith, leb→le (sub64 r.content.modulus 1) r.len, e),
  )

  pop-modulus :
      (r r' : RingBuffer T) (o : Option T)
      → pop z r ≡ some (o, r')
      → r'.content.modulus ≡ r.content.modulus
  unfolding pop
  pop-modulus r r' o e = ground (arith, e)

  pop_n-modulus :
      (r r' : RingBuffer T) (n : ℕ) (o : Option (List T))
      → pop_n z r n ≡ some (o, r')
      → r'.content.modulus ≡ r.content.modulus
  unfolding pop_n
  pop_n-modulus r r' n o e = ground (arith, e)

  step-Grown :
      (r r' : RingBuffer T) (q : List T) (op : Op T) (reply : Reply T)
      → Represents z r q
      → HasRoom r
      → step z r op ≡ some (reply, r')
      → Grown r.content.modulus (length (spec_step q op).1) r'.content.modulus
  unfolding step spec_step clear
  step-Grown r r' q (push_back x) reply p room e =
      let (low, high) = push-Grown r r' x p.valid room (ground (arith, e)) in
      (low, omega (arith, high, length-append q (x ∷ []), len-Represents z r q p))
  step-Grown r r' q (push_first x) reply p room e =
      let (low, high) = push_front-Grown r r' x p.valid room (ground (arith, e)) in
      (low, omega (arith, high, len-Represents z r q p))
  step-Grown r r' q pop_one reply p room e = elim (Option-cases (pop z r)) [
    | inl f ↦ absurd (ground (arith, e, f))
    | inr ((o, s), f) ↦
        let kept = pop-modulus r s o f in (ground (arith, e, f, kept), ground (arith, e, f, kept))
  ]
  step-Grown r r' q (pop_many n) reply p room e = elim (Option-cases (pop_n z r n)) [
    | inl f ↦ absurd (ground (arith, e, f))
    | inr ((o, s), f) ↦
        let kept = pop_n-modulus r s n o f in
        (ground (arith, e, f, kept), ground (arith, e, f, kept))
  ]
  step-Grown r r' q clear_all reply p room e = (ground (arith, e), ground (arith, e))

  -- The final ring represents the final queue, and its slice is longer than any queue on the way.
  run_ring-longest :
      (ops : List (Op T)) (r : RingBuffer T) (q : List T)
      → Represents z r q
      → length q + length ops + (length q + length ops) ≤ 2 ^ 62
      → (r' : RingBuffer T) × (run_ring r ops ≡ some r')
        × (longest q ops < r'.content.modulus)
        × Grown r.content.modulus (longest q ops) r'.content.modulus
  unfolding run_ring longest
  run_ring-longest [] r q p h =
      (r, refl, omega (arith, p.valid.len_in, len-Represents z r q p), (omega arith, omega arith))
  run_ring-longest (op ∷ ops) r q p h =
      let (s, e, p') = step-Represents z r q op p (omega arith) in
      let (low, high) =
        step-Grown r s q op (spec_step q op).0 p (omega (arith, len-Represents z r q p)) e in
      let (r', f, above, (low', high')) =
        run_ring-longest ops s (spec_step q op).1 p' (omega (arith, length-spec_step z q op)) in
      (
        r',
        rw (e, run_ring) f,
        omega (arith, above, low, low', p.valid.len_in, len-Represents z r q p),
        (
          omega (arith, low, low'),
          omega (arith, high, high', length-longest (spec_step q op).1 ops),
        ),
      )

  -- A new ring of positive size, after any calls: its slice is not smaller than the size, it is
  -- larger than the queue at its longest, and it is no larger than the size or than twice the queue at
  -- its longest.
  pub new-longest :
      (size : ℕ) (ops : List (Op T))
      → 0 < size
      → size ≤ 2 ^ 62
      → length ops + length ops ≤ 2 ^ 62
      → (r : RingBuffer T) × (run_ring (new z size) ops ≡ some r)
        × (longest [] ops < r.content.modulus)
        × (size ≤ r.content.modulus)
        × (r.content.modulus ≤ max size (2 * longest [] ops))
  unfolding new
  new-longest size ops h k l =
      let (r, e, above, (low, high)) =
        run_ring-longest ops (new z size) [] (new-Represents z size h k) (omega arith) in
      (r, e, above, low, high)
