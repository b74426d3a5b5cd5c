-- ===== src/Ring/Deque.antt =====
-- A ring buffer from ringbuffer/ringbuffer.go is a double-ended queue to its clients.
use mathlib.Core.List.{head?}
use hollywood.Base.{
  ℕ, suc, ◌+◌, ◌^◌, ◌≤◌, ◌<◌, ◌≡◌, refl, List, [], ◌∷◌, ◌++◌, Option, none, some, arith, length,
  length-append, length-drop-le, drop,
}
use hollywood.Ring.{RingBuffer, new, push, pop, push_front, pop_n, clear}
use hollywood.Ring.Validity.{Represents, new-IsValid, len-Represents}
use hollywood.Ring.Push.{push-Represents}
use hollywood.Ring.PushFront.{push_front-Represents}
use hollywood.Ring.Pop.{pop-Represents}
use hollywood.Ring.PopN.{first_n, pop_n-Represents, clear-Represents}

-- The methods, and what a client sees of a call.
pub data Op {ℓ} (T : Type ℓ) : Type ℓ where
  push_back : T → Op T
  push_first : T → Op T
  pop_one : Op T
  pop_many : ℕ → Op T
  clear_all : Op T

pub data Reply {ℓ} (T : Type ℓ) : Type ℓ where
  done : Reply T
  item : Option T → Reply T
  batch : Option (List T) → Reply T

-- The specification: a list, oldest item first.
unfoldable pub spec_step {ℓ} : {T : Type ℓ} → List T → Op T → Reply T × List T
spec_step q (push_back x) = (done, q ++ x ∷ [])
spec_step q (push_first x) = (done, x ∷ q)
spec_step q pop_one = (item (head? q), drop 1 q)
spec_step q (pop_many n) = (batch (first_n q n), drop n q)
spec_step q clear_all = (done, [])

unfoldable pub spec_run {ℓ} : {T : Type ℓ} → List T → List (Op T) → List (Reply T)
unfolding spec_step
spec_run q [] = []
spec_run q (op ∷ ops) = let (reply, q') = spec_step q op in reply ∷ spec_run q' ops

module _ {ℓ} {T : Type ℓ} (z : T) where
  -- The program's calls: `none` is a fault.
  unfoldable pub step : RingBuffer T → Op T → Option (Reply T × RingBuffer T)
  step r (push_back x) = elim (push z r x) [ none ↦ none | some r' ↦ some (done, r') ]
  step r (push_first x) = elim (push_front z r x) [ none ↦ none | some r' ↦ some (done, r') ]
  step r pop_one = elim (pop z r) [ none ↦ none | some (x, r') ↦ some (item x, r') ]
  step r (pop_many n) = elim (pop_n z r n) [ none ↦ none | some (xs, r') ↦ some (batch xs, r') ]
  step r clear_all = some (done, clear r)

  unfoldable pub run : RingBuffer T → List (Op T) → Option (List (Reply T))
  unfolding step
  run r [] = some []
  run r (op ∷ ops) = elim (step r op) [
    | none ↦ none
    | some (reply, r') ↦ elim (run r' ops) [ none ↦ none | some rest ↦ some (reply ∷ rest) ]
  ]

  pub step-Represents :
      (r : RingBuffer T) (q : List T) (op : Op T)
      → Represents z r q
      → (suc (length q) + suc (length q)) ≤ 2 ^ 62
      → (r' : RingBuffer T) × (step r op ≡ some ((spec_step q op).0, r'))
        × Represents z r' (spec_step q op).1
  unfolding step spec_step
  step-Represents r q (push_back x) p h =
      let (r', e, p') = push-Represents z r q x p (rw (len-Represents z r q p) h) in
      (r', rw (e, step), p')
  step-Represents r q (push_first x) p h =
      let (r', e, p') = push_front-Represents z r q x p (rw (len-Represents z r q p) h) in
      (r', rw (e, step), p')
  step-Represents r q pop_one p h =
      let (r', e, p') = pop-Represents z r q p in (r', rw (e, step), p')
  step-Represents r q (pop_many n) p h =
      let (r', e, p') = pop_n-Represents z r q n p in (r', rw (e, step), p')
  step-Represents r q clear_all p h = (clear r, refl, clear-Represents z r p.valid)

  pub length-spec_step : (q : List T) (op : Op T) → length (spec_step q op).1 ≤ suc (length q)
  unfolding spec_step
  length-spec_step q (push_back x) = omega (arith, length-append q (x ∷ []))
  length-spec_step q (push_first x) = omega arith
  length-spec_step q pop_one = omega (arith, length-drop-le 1 q)
  length-spec_step q (pop_many n) = omega (arith, length-drop-le n q)
  length-spec_step q clear_all = omega arith

  -- A ring that represents a queue never faults and answers every sequence of calls as the queue
  -- does, as long as the calls cannot bring it to 2 ^ 61 items.
  pub run_refines :
      (ops : List (Op T)) (r : RingBuffer T) (q : List T)
      → Represents z r q
      → length q + length ops + (length q + length ops) ≤ 2 ^ 62
      → run r ops ≡ some (spec_run q ops)
  unfolding run spec_run
  run_refines [] r q p h = refl
  run_refines (op ∷ ops) r q p h =
      let (r', e, p') = step-Represents r q op p (omega arith) in
      rw (e, run, run_refines ops r' (spec_step q op).1 p' (omega (arith, length-spec_step q op)))

  pub new-Represents : (size : ℕ) → 0 < size → size ≤ 2 ^ 62 → Represents z (new z size) []
  unfolding new
  new-Represents size h k = record { valid = new-IsValid z size h k; holds = refl }

  -- So a new ring of any positive size behaves as an empty queue.
  pub run-new :
      (size : ℕ) (ops : List (Op T))
      → 0 < size
      → size ≤ 2 ^ 62
      → length ops + length ops ≤ 2 ^ 62
      → run (new z size) ops ≡ some (spec_run [] ops)
  run-new size ops h k l = run_refines ops (new z size) [] (new-Represents size h k) (omega arith)
