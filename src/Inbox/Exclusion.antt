-- ===== src/Inbox/Exclusion.antt =====
-- At most one goroutine drains the queue of actor/inbox.go, as long as Start is not called on a
-- stopped inbox whose worker is still busy.
use hollywood.Base.{
  ℕ, ◌+◌, ◌≤◌, ◌≡◌, refl, Bool, true, false, List, [], ◌∷◌, ◌++◌, arith, count, count-append,
}
use hollywood.Inbox.{
  Inbox, System, Reach, fresh, called, moved, stopped, running, Pc, invoking, Call, send, start,
  stop, advance, enter, schedule, pop_batch,
}
use hollywood.Inbox.Invariant.{is_working, is_opening, is_idle, is_running, count_middle}

module _ {M : Type 0} where
  -- Workers, and goroutines that are opening the inbox.
  abbrev pub busy : List (Pc M) → ℕ
  busy ts = count is_working ts + count is_opening ts

  -- Start finds the inbox stopped only when nobody is busy in it.
  abbrev pub RestartsIdle : System M → Call M → Type 0
  RestartsIdle s (start p) = s.inbox.proc_status ≡ stopped → busy s.threads ≡ 0
  RestartsIdle s _ = Unit

  -- Of the status, the workers and the goroutines in Start.
  pub record IsExclusive (b : Inbox M) (working opening_ : ℕ) : Type 0 where
    pub at_most_one : working + opening_ ≤ 1
    pub when_idle : is_idle b.proc_status ≡ true → working + opening_ ≡ 0
    pub when_running : is_running b.proc_status ≡ true → working ≡ 1

  advance-IsExclusive :
      (b : Inbox M) (pc : Pc M) (k o : ℕ)
      → IsExclusive b (count is_working (pc ∷ []) + k) (count is_opening (pc ∷ []) + o)
      → IsExclusive
          (advance b pc).0
          (count is_working (advance b pc).1 + k)
          (count is_opening (advance b pc).1 + o)
  unfolding advance schedule pop_batch
  advance-IsExclusive b pc k o h = ground (arith, h.at_most_one, h.when_idle, h.when_running)

  enter-IsExclusive :
      (b : Inbox M) (c : Call M) (ts : List (Pc M))
      → RestartsIdle (record { inbox = b; threads = ts }) c
      → IsExclusive b (count is_working ts) (count is_opening ts)
      → IsExclusive
          (enter b c).0
          (count is_working (enter b c).1 + count is_working ts)
          (count is_opening (enter b c).1 + count is_opening ts)
  unfolding enter
  enter-IsExclusive b c ts a h = ground (arith, a, h.at_most_one, h.when_idle, h.when_running)

  IsExclusive-cong :
      (b : Inbox M) {k o k' o' : ℕ} → k ≡ k' → o ≡ o' → IsExclusive b k o → IsExclusive b k' o'
  IsExclusive-cong b x y h = record {
    at_most_one = omega (arith, h.at_most_one);
    when_idle = λ i. omega (arith, h.when_idle i);
    when_running = λ i. omega (arith, h.when_running i);
  }

  Reach-Exclusive :
      {s : System M}
      → Reach RestartsIdle s
      → IsExclusive s.inbox (count is_working s.threads) (count is_opening s.threads)
  Reach-Exclusive fresh = record {
    at_most_one = omega arith;
    when_idle = λ h. refl;
    when_running = λ h. absurd (ground arith);
  }
  Reach-Exclusive (called b c ts a r) =
      let cs = (enter b c).1 in
      IsExclusive-cong (enter b c).0 (omega (arith, count-append is_working cs ts))
        (omega (arith, count-append is_opening cs ts))
        (enter-IsExclusive b c ts a (Reach-Exclusive r))
  Reach-Exclusive (moved b xs pc ys r) =
      let zs = (advance b pc).1 in
      IsExclusive-cong (advance b pc).0 (omega (arith, count_middle is_working xs zs ys))
        (omega (arith, count_middle is_opening xs zs ys))
        (advance-IsExclusive b pc (count is_working xs + count is_working ys)
          (count is_opening xs + count is_opening ys)
          (IsExclusive-cong b (omega (arith, count-append is_working xs (pc ∷ ys)))
            (omega (arith, count-append is_opening xs (pc ∷ ys))) (Reach-Exclusive r)))

  -- If Start never finds the inbox stopped with a goroutine still busy in it, then in every state
  -- that is reached at most one goroutine is inside run, and exactly one while the status is running.
  pub one_worker :
      (s : System M)
      → Reach RestartsIdle s
      → (count is_working s.threads ≤ 1)
        × (s.inbox.proc_status ≡ running → count is_working s.threads ≡ 1)
  one_worker s r =
      let h = Reach-Exclusive r in (omega (arith, h.at_most_one), λ e. h.when_running (rw e))

  abbrev pub Anything : System M → Call M → Type 0
  Anything s c = Unit

  abbrev pub is_invoking : Pc M → Bool
  is_invoking (invoking ms) = true
  is_invoking _ = false

  -- The first goroutine of the list takes a step.
  first_moved :
      {b : Inbox M} {pc : Pc M} {ys : List (Pc M)}
      → Reach Anything (record { inbox = b; threads = pc ∷ ys })
      → Reach Anything (record { inbox = (advance b pc).0; threads = (advance b pc).1 ++ ys })
  first_moved {b} {pc} {ys} r = moved b [] pc ys r

  any_called :
      {b : Inbox M} {ys : List (Pc M)} (c : Call M)
      → Reach Anything (record { inbox = b; threads = ys })
      → Reach Anything (record { inbox = (enter b c).0; threads = (enter b c).1 ++ ys })
  any_called {b} {ys} c r = called b c ys tt r

  -- Without the condition on Start: for any two messages, a Stop and a Start during the Invoke of the
  -- first (as the cleanup and the restart of a process do) lead to a state in which two goroutines
  -- are inside Invoke, with one message each.
  two_workers :
      (p : ℕ) (m n : M)
      → (b : Inbox M) × Reach Anything
          (record { inbox = b; threads = invoking (n ∷ []) ∷ invoking (m ∷ []) ∷ [] })
  unfolding advance schedule pop_batch enter
  two_workers p m n =
      let opened = first_moved (first_moved (first_moved (any_called (start p) fresh))) in
      let first_batch = first_moved (first_moved (first_moved (any_called (send m) opened))) in
      let reopened =
        first_moved
          (first_moved (first_moved (any_called (start p) (any_called stop first_batch)))) in
      (_, first_moved (first_moved (first_moved (any_called (send n) reopened))))
