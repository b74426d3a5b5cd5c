-- ===== src/Ring/Tests.antt =====
-- Runs of ringbuffer/ringbuffer.go.
use hollywood.Base.{ℕ, ◌*◌, ◌≤◌, ◌<◌, max, ◌≡◌, refl, none, some, List, [], ◌∷◌, arith}
use hollywood.Ring.{
  RingBuffer, new, push, pop, push_front, pop_n, advance, grow_back, grow_front, copy_loop,
  pop_loop,
}
use hollywood.Ring.Validity.{Represents}
use hollywood.Ring.Growth.{longest, run_ring, new-longest}
use hollywood.Ring.Batches.{pops, pop_n-pops}
use hollywood.Ring.Deque.{
  Op, push_back, push_first, pop_one, pop_many, Reply, done, item, batch, run, spec_run, spec_step,
  run-new,
}

abbrev calls : List (Op ℕ)
calls =
    push_back 1
    ∷ push_back 2
    ∷ push_first 3
    ∷ push_back 4
    ∷ pop_one
    ∷ push_first 5
    ∷ pop_many 2
    ∷ pop_many 9
    ∷ pop_one
    ∷ []

abbrev answers : List (Reply ℕ)
answers =
    done
    ∷ done
    ∷ done
    ∷ done
    ∷ item (some 3)
    ∷ done
    ∷ batch (some (5 ∷ 1 ∷ []))
    ∷ batch (some (2 ∷ 4 ∷ []))
    ∷ item none
    ∷ []

run-calls : run 0 (new 0 2) calls ≡ some answers
unfolding run push pop push_front pop_n new advance grow_back grow_front copy_loop pop_loop
run-calls = refl

-- A ring made with size 0 faults at the first push.
run_size_zero : run {T = ℕ} 0 (new 0 0) (push_back 1 ∷ []) ≡ none
unfolding run push new advance grow_back copy_loop
run_size_zero = refl

run-new_example : run 0 (new 0 2) calls ≡ some (spec_run [] calls)
run-new_example = run-new 0 2 calls (omega arith) (omega arith) (omega arith)

-- Two items in a slice of three, the first in the last slot.
abbrev wrapped : RingBuffer ℕ
wrapped = record {
  len = 2;
  content = record { items = 9 ∷ 0 ∷ 8 ∷ []; head = 1; tail = 0; modulus = 3 };
}

wrapped-Represents : Represents 0 wrapped (8 ∷ 9 ∷ [])
wrapped-Represents = record { valid = omega arith; holds = refl }

pop_n-pops_example :
    (s t : RingBuffer ℕ) × (pop_n 0 wrapped 1 ≡ some (some (8 ∷ []), s))
    × (pops 0 1 wrapped ≡ some (8 ∷ [], t))
    × (run 0 s (push_back 3 ∷ []) ≡ run 0 t (push_back 3 ∷ []))
pop_n-pops_example =
    pop_n-pops 0 wrapped (8 ∷ 9 ∷ []) 1 (push_back 3 ∷ []) wrapped-Represents (omega arith)

-- The queue at its longest.
longest-calls : longest [] calls ≡ 4
unfolding longest spec_step
longest-calls = refl

new-longest_example :
    (r : RingBuffer ℕ) × (run_ring 0 (new 0 2) calls ≡ some r)
    × (longest [] calls < r.content.modulus)
    × (2 ≤ r.content.modulus)
    × (r.content.modulus ≤ max 2 (2 * longest [] calls))
new-longest_example = new-longest 0 2 calls (omega arith) (omega arith) (omega arith)
