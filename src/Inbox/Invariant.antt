-- ===== src/Inbox/Invariant.antt =====
-- No message of actor/inbox.go is left behind: whatever the interleaving, a queue with messages has
-- a goroutine that will look at it, unless the inbox is stopped.
use hollywood.Base.{
  ℕ, ◌+◌, ◌≤◌, ◌≡◌, ◌⊎◌, Bool, true, false, List, [], ◌∷◌, ◌++◌, arith, count, count-append,
}
use hollywood.Inbox.{
  Inbox, System, Reach, fresh, called, moved, Status, stopped, starting, idle, running, Pc,
  scheduling, setting_proc, opening, loading, popping, invoking, leaving, checking, Call, advance,
  enter, schedule, pop_batch,
}

abbrev pub is_idle : Status → Bool
is_idle idle = true
is_idle _ = false

abbrev pub is_running : Status → Bool
is_running running = true
is_running _ = false

abbrev pub is_starting : Status → Bool
is_starting starting = true
is_starting _ = false

module _ {M : Type 0} where
  -- A goroutine that is about to schedule, or to look at the queue and then schedule.
  abbrev pub is_waking : Pc M → Bool
  is_waking scheduling = true
  is_waking checking = true
  is_waking _ = false

  -- A goroutine inside `run`, or not yet past the compare-and-swap that follows it.
  abbrev pub is_working : Pc M → Bool
  is_working loading = true
  is_working popping = true
  is_working (invoking ms) = true
  is_working leaving = true
  is_working _ = false

  -- A goroutine inside `Start`, before it sets the status to idle.
  abbrev pub is_opening : Pc M → Bool
  is_opening (setting_proc p) = true
  is_opening opening = true
  is_opening _ = false

  abbrev pub is_empty : List M → Bool
  is_empty [] = true
  is_empty (m ∷ ms) = false

  -- Whoever set the status is still there to act on it.
  pub record IsServed (b : Inbox M) (waking working opening_ : ℕ) : Type 0 where
    pub when_idle : is_idle b.proc_status ≡ true → is_empty b.rb ≡ false → 1 ≤ waking
    pub when_running : is_running b.proc_status ≡ true → 1 ≤ working
    pub when_starting : is_starting b.proc_status ≡ true → 1 ≤ opening_

  -- More goroutines do no harm.
  IsServed-mono :
      (b : Inbox M) {w k o w' k' o' : ℕ}
      → w ≤ w'
      → k ≤ k'
      → o ≤ o'
      → IsServed b w k o
      → IsServed b w' k' o'
  IsServed-mono b x y z h = record {
    when_idle = λ i e. omega (arith, h.when_idle i e);
    when_running = λ i. omega (arith, h.when_running i);
    when_starting = λ i. omega (arith, h.when_starting i);
  }

  -- `w`, `k` and `o` are the goroutines beside the one that takes the step.
  advance-IsServed :
      (b : Inbox M) (pc : Pc M) (w k o : ℕ)
      → IsServed b
          (count is_waking (pc ∷ []) + w)
          (count is_working (pc ∷ []) + k)
          (count is_opening (pc ∷ []) + o)
      → IsServed
          (advance b pc).0
          (count is_waking (advance b pc).1 + w)
          (count is_working (advance b pc).1 + k)
          (count is_opening (advance b pc).1 + o)
  unfolding advance schedule pop_batch
  advance-IsServed b pc w k o h = ground (arith, h.when_idle, h.when_running, h.when_starting)

  enter-IsServed :
      (b : Inbox M) (c : Call M) (w k o : ℕ)
      → IsServed b w k o
      → IsServed
          (enter b c).0
          (count is_waking (enter b c).1 + w)
          (count is_working (enter b c).1 + k)
          (count is_opening (enter b c).1 + o)
  unfolding enter
  enter-IsServed b c w k o h = ground (arith, h.when_idle, h.when_running, h.when_starting)

  -- The goroutine that takes a step may stand anywhere in the list.
  pub count_middle :
      (p : Pc M → Bool) (xs zs ys : List (Pc M))
      → count p (xs ++ zs ++ ys) ≡ count p zs + (count p xs + count p ys)
  count_middle p xs zs ys = omega (arith, count-append p (xs ++ zs) ys, count-append p xs zs)

  abbrev pub Served : System M → Type 0
  Served s =
      IsServed s.inbox (count is_waking s.threads) (count is_working s.threads)
        (count is_opening s.threads)

  -- In every state that is reached by any calls in any interleaving: an idle inbox with messages has
  -- a goroutine about to schedule, a running one a worker, and a starting one a goroutine in Start.
  pub Reach-Served :
      {Allowed : System M → Call M → Type 0} {s : System M} → Reach Allowed s → Served s
  Reach-Served fresh = record {
    when_idle = λ h. absurd (ground arith);
    when_running = λ h. absurd (ground arith);
    when_starting = λ h. absurd (ground arith);
  }
  Reach-Served (called b c ts a r) =
      let cs = (enter b c).1 in
      IsServed-mono (enter b c).0 (omega (arith, count-append is_waking cs ts))
        (omega (arith, count-append is_working cs ts))
        (omega (arith, count-append is_opening cs ts))
        (enter-IsServed b c (count is_waking ts) (count is_working ts) (count is_opening ts)
          (Reach-Served r))
  Reach-Served (moved b xs pc ys r) =
      let zs = (advance b pc).1 in
      IsServed-mono (advance b pc).0 (omega (arith, count_middle is_waking xs zs ys))
        (omega (arith, count_middle is_working xs zs ys))
        (omega (arith, count_middle is_opening xs zs ys))
        (advance-IsServed b pc (count is_waking xs + count is_waking ys)
          (count is_working xs + count is_working ys) (count is_opening xs + count is_opening ys)
          (IsServed-mono b (omega (arith, count-append is_waking xs (pc ∷ ys)))
            (omega (arith, count-append is_working xs (pc ∷ ys)))
            (omega (arith, count-append is_opening xs (pc ∷ ys))) (Reach-Served r)))

  -- When every goroutine inside the inbox has ended, whatever calls were made and in whatever
  -- interleaving, the inbox is stopped or no message is left in it.
  pub quiescent-is_empty :
      {Allowed : System M → Call M → Type 0} (s : System M)
      → Reach Allowed s
      → s.threads ≡ []
      → (s.inbox.proc_status ≡ stopped) ⊎ (s.inbox.rb ≡ [])
  quiescent-is_empty s r e =
      let h = Reach-Served r in
      let none_left : (p : Pc M → Bool) → count p s.threads ≡ 0 = λ p. rw e in
      ground (
        arith,
        h.when_idle,
        h.when_running,
        h.when_starting,
        none_left is_waking,
        none_left is_working,
        none_left is_opening,
      )
