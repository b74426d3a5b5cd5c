-- ===== src/Ring/Loops.antt =====
-- The loops of ringbuffer/ringbuffer.go, index by index.
use native.Mathlib.Decide.{ℕ_discrete}
use hollywood.Base.{
  ℕ, zero, suc, ◌+◌, ◌-◌, ◌%◌, ◌^◌, ◌≤◌, ◌<◌, ◌≡◌, refl, ap, ◌∙◌, List, arith, length, get_or, set,
  length-set, get_or-set_at, get_or-set_ne,
}
use hollywood.Ring.{add64, copy_loop, pop_loop}
use hollywood.Ring.Index.{add64_lem, mod_ne}

module _ {ℓ} {T : Type ℓ} (z : T) where
  pub length-copy_loop :
      (k i start offset m : ℕ) (items buff : List T)
      → length (copy_loop z k i start offset m items buff) ≡ length buff
  unfolding copy_loop
  length-copy_loop zero i start offset m items buff = refl
  length-copy_loop (suc k) i start offset m items buff =
      length-copy_loop k (suc i) start offset m items _ ∙ length-set buff (add64 i offset) _

  -- The loop writes from `i + offset` on.
  pub copy_loop_below :
      (k i start offset m : ℕ) (items buff : List T) (j : ℕ)
      → j < i + offset
      → i + k + offset < 2 ^ 63
      → get_or (copy_loop z k i start offset m items buff) j z ≡ get_or buff j z
  unfolding copy_loop
  copy_loop_below zero i start offset m items buff j h s = refl
  copy_loop_below (suc k) i start offset m items buff j h s =
      copy_loop_below k (suc i) start offset m items _ j (omega arith) (omega arith)
      ∙ get_or-set_ne buff (add64 i offset) j _ z (omega arith)

  -- Slot `j` receives the item `j - offset` places from the start.
  pub copy_loop_at :
      (k i start offset m : ℕ) (items buff : List T) (j : ℕ)
      → i + offset ≤ j
      → j < i + k + offset
      → i + k + offset ≤ length buff
      → length buff < 2 ^ 63
      → start + i + k < 2 ^ 63
      → get_or (copy_loop z k i start offset m items buff) j z
        ≡ get_or items ((start + (j - offset)) % m) z
  unfolding copy_loop
  copy_loop_at zero i start offset m items buff j h l s b c = absurd (omega arith)
  copy_loop_at (suc k) i start offset m items buff j h l s b c = elim (ℕ_discrete j (i + offset)) [
    | yes e ↦
        let idx : add64 start i ≡ start + (j - offset) = omega arith in
        copy_loop_below k (suc i) start offset m items _ j (omega arith) (omega arith)
        ∙ get_or-set_at buff (add64 i offset) j _ z (omega arith) (omega arith)
        ∙ ap (λ (t : ℕ). get_or items (t % m) z) idx
    | no ne ↦
        copy_loop_at k (suc i) start offset m items _ j (omega arith) (omega arith)
          (omega (arith, length-set buff (add64 i offset) (get_or items (add64 start i % m) z)))
          (omega (arith, length-set buff (add64 i offset) (get_or items (add64 start i % m) z)))
          (omega arith)
  ]

  pub pop_loop_lengths :
      (k i head m : ℕ) (items out : List T)
      → let r = pop_loop z k i head m items out in
        (length r.0 ≡ length items) × (length r.1 ≡ length out)
  unfolding pop_loop
  pop_loop_lengths zero i head m items out = (refl, refl)
  pop_loop_lengths (suc k) i head m items out =
      let pos = add64 (add64 head 1) i % m in
      let rest =
        pop_loop_lengths k (suc i) head m (set items pos z) (set out i (get_or items pos z)) in
      (rest.0 ∙ length-set items pos z, rest.1 ∙ length-set out i _)

  -- The slots of the items that stay are not touched.
  pub pop_loop_keeps :
      (k i head m : ℕ) (items out : List T) (j : ℕ)
      → head < m
      → m ≤ 2 ^ 62
      → i + k ≤ j
      → suc j < m
      → get_or (pop_loop z k i head m items out).0 ((head + suc j) % m) z
        ≡ get_or items ((head + suc j) % m) z
  unfolding pop_loop
  pop_loop_keeps zero i head m items out j h s l b = refl
  pop_loop_keeps (suc k) i head m items out j h s l b =
      pop_loop_keeps k (suc i) head m _ _ j h s (omega arith) b
      ∙ get_or-set_ne items (add64 (add64 head 1) i % m) _ z z (
          rw (add64_lem head 1 (omega arith), add64_lem (head + 1) i (omega arith))
            (mod_ne (head + 1 + i) (head + suc j) m (omega arith) (omega arith) (omega arith)))

  -- An index below the loop's is already written.
  pub pop_loop_below :
      (k i head m : ℕ) (items out : List T) (j : ℕ)
      → j < i
      → get_or (pop_loop z k i head m items out).1 j z ≡ get_or out j z
  unfolding pop_loop
  pop_loop_below zero i head m items out j h = refl
  pop_loop_below (suc k) i head m items out j h =
      pop_loop_below k (suc i) head m _ _ j (omega arith) ∙ get_or-set_ne out i j _ z (omega arith)

  -- Item `j` of the result is the one in slot `head + 1 + j`.
  pub pop_loop_at :
      (k i head m : ℕ) (items out : List T) (j : ℕ)
      → head < m
      → m ≤ 2 ^ 62
      → i ≤ j
      → j < i + k
      → i + k < m
      → i + k ≤ length out
      → get_or (pop_loop z k i head m items out).1 j z ≡ get_or items ((head + suc j) % m) z
  unfolding pop_loop
  pop_loop_at zero i head m items out j h s l b c d = absurd (omega arith)
  pop_loop_at (suc k) i head m items out j h s l b c d = elim (ℕ_discrete j i) [
    | yes e ↦
        let idx : add64 (add64 head 1) i ≡ head + suc j = omega arith in
        pop_loop_below k (suc i) head m _ _ j (omega arith)
        ∙ get_or-set_at out i j _ z (omega arith) (omega arith)
        ∙ ap (λ (t : ℕ). get_or items (t % m) z) idx
    | no ne ↦
        pop_loop_at k (suc i) head m _ _ j h s (omega arith) (omega arith) (omega arith)
          (omega (arith, length-set out i (get_or items (add64 (add64 head 1) i % m) z)))
        ∙ get_or-set_ne items (add64 (add64 head 1) i % m) _ z z (
            rw (add64_lem head 1 (omega arith), add64_lem (head + 1) i (omega arith))
              (mod_ne (head + 1 + i) (head + suc j) m (omega arith) (omega arith) (omega arith)))
  ]
