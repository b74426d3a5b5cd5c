-- ===== src/Mailbox/Batches.antt =====
-- While at most one goroutine of actor/inbox.go is inside run, the batches that it takes are invoked one
-- after another.
use mathlib.Core.List.{append_assoc, append-nil}
use hollywood.Base.{
  ℕ, ◌≤◌, ◌≡◌, refl, sym, ap, ap₂, ◌∙◌, Option, List, [], ◌∷◌, ◌++◌, map, arith, count,
  count-append,
}
use hollywood.Pid.{Pid}
use hollywood.Inbox.{
  Inbox, System, Reach, fresh, called, moved, Pc, scheduling, setting_proc, opening, loading,
  popping, invoking, leaving, checking, Call, advance, enter, schedule, pop_batch,
}
use hollywood.Inbox.Invariant.{is_working}
use hollywood.Inbox.Exclusion.{RestartsIdle, one_worker}
use hollywood.Inbox.Order.{InOrder}
use hollywood.Process.{
  Opts, Proc, Exit, returns, panics, unfinished, Action, go_on, invoke, start, ◌>>◌,
}
use hollywood.Process.Log.{to_envelope}
use hollywood.Mailbox.{hand_over, Serves, made, takes_call, takes_step}

-- The messages of the batches, in order.
abbrev pub concat_all : {A : Type 0} → List (List A) → List A
concat_all [] = []
concat_all (b ∷ bs) = b ++ concat_all bs

concat_all-snoc :
    {A : Type 0} (bs : List (List A)) (b : List A) → concat_all (bs ++ b ∷ []) ≡ concat_all bs ++ b
concat_all-snoc [] b = append-nil b
concat_all-snoc (c ∷ bs) b =
    ap (λ l. c ++ l) (concat_all-snoc bs b) ∙ sym (append_assoc c (concat_all bs) b)

module _ {M : Type 0} where
  -- The batch that a goroutine has taken and not yet handed over.
  abbrev held : Pc M → List M
  held (invoking ms) = ms
  held _ = []

  abbrev pub pending : List (Pc M) → List M
  pending [] = []
  pending (pc ∷ ts) = held pc ++ pending ts

  pending-append : (xs ys : List (Pc M)) → pending (xs ++ ys) ≡ pending xs ++ pending ys
  pending-append [] ys = refl
  pending-append (pc ∷ xs) ys =
      ap (λ l. held pc ++ l) (pending-append xs ys)
      ∙ sym (append_assoc (held pc) (pending xs) (pending ys))

  pending-idle : (ts : List (Pc M)) → count is_working ts ≡ 0 → pending ts ≡ []
  pending-idle [] h = refl
  pending-idle (invoking ms ∷ ts) h = absurd (omega arith)
  pending-idle (pc ∷ ts) h = pending-idle ts (omega arith)

  -- The goroutines around one that works hold nothing.
  pending-alone :
      (xs zs ys : List (Pc M)) (pc : Pc M)
      → count is_working (xs ++ pc ∷ ys) ≤ 1
      → count is_working (pc ∷ []) ≡ 1
      → pending (xs ++ zs ++ ys) ≡ pending zs
  pending-alone xs zs ys pc most one =
      let total = count-append is_working xs (pc ∷ ys) in
      pending-append (xs ++ zs) ys
      ∙ ap₂ ◌++◌
          (pending-append xs zs
            ∙ ap (λ l. l ++ pending zs) (pending-idle xs (omega (arith, total))))
          (pending-idle ys (omega (arith, total)))
      ∙ append-nil (pending zs)

  pending-own :
      (xs ys : List (Pc M)) (pc : Pc M)
      → count is_working (xs ++ pc ∷ ys) ≤ 1
      → count is_working (pc ∷ []) ≡ 1
      → pending (xs ++ pc ∷ ys) ≡ held pc
  pending-own xs ys pc most one =
      let total = count-append is_working xs (pc ∷ ys) in
      pending-append xs (pc ∷ ys)
      ∙ ap₂ ◌++◌ (pending-idle xs (omega (arith, total)))
          (ap (λ l. held pc ++ l) (pending-idle ys (omega (arith, total))) ∙ append-nil (held pc))

  pop_batch-pending :
      (q : List M) (b : Inbox M)
      → let (b', zs) = pop_batch (record b { rb = q }) in b.taken ++ pending zs ≡ b'.taken
  unfolding pop_batch
  pop_batch-pending [] b = append-nil b.taken
  pop_batch-pending (m ∷ q) b = ap (λ l. b.taken ++ m ∷ l) (append-nil _)

  -- A step that neither takes a batch nor hands one over.
  abbrev IsOther : Pc M → Type 0
  IsOther popping = ⊥
  IsOther (invoking ms) = ⊥
  IsOther _ = Unit

  advance-other :
      (b : Inbox M) (pc : Pc M)
      → IsOther pc
      → (held pc ≡ []) × ((advance b pc).0.taken ≡ b.taken) × (pending (advance b pc).1 ≡ [])
  unfolding advance schedule
  advance-other b popping h = absurd h
  advance-other b (invoking ms) h = absurd h
  advance-other b pc h = (refl, ground arith, ground arith)

  pending-other :
      (b : Inbox M) (xs : List (Pc M)) (pc : Pc M) (ys : List (Pc M))
      → IsOther pc
      → pending (xs ++ (advance b pc).1 ++ ys) ≡ pending (xs ++ pc ∷ ys)
  pending-other b xs pc ys h =
      let (nothing, _, none_new) = advance-other b pc h in
      pending-append (xs ++ (advance b pc).1) ys
      ∙ ap (λ l. l ++ pending ys)
          (pending-append xs (advance b pc).1 ∙ ap (λ l. pending xs ++ l) (none_new ∙ sym nothing))
      ∙ append_assoc (pending xs) (held pc) (pending ys)
      ∙ sym (pending-append xs (pc ∷ ys))

  enter-pending :
      (b : Inbox M) (c : Call M) (ts : List (Pc M))
      → ((enter b c).0.taken ≡ b.taken) × (pending ((enter b c).1 ++ ts) ≡ pending ts)
  unfolding enter
  enter-pending b c ts = (ground arith, ground arith)

module _ {Msg S : Type 0} where
  go_on-returns : (r : Proc Msg S × Exit) → go_on (λ q. (q, returns)) r ≡ r
  go_on-returns (q, returns) = refl
  go_on-returns (q, panics v) = refl
  go_on-returns (q, unfinished) = refl

  go_on_assoc :
      (f g : Action Msg S) (r : Proc Msg S × Exit)
      → go_on (λ q. go_on g (f q)) r ≡ go_on g (go_on f r)
  go_on_assoc f g (q, returns) = refl
  go_on_assoc f g (q, panics v) = refl
  go_on_assoc f g (q, unfinished) = refl

module _ {Msg S : Type 0} (opts : Opts Msg S) (fuel : ℕ) where
  -- Batches one after another.
  unfoldable pub invoke_each : List (List (Msg × Option Pid)) → Proc Msg S → Proc Msg S × Exit
  invoke_each [] p = (p, returns)
  invoke_each (b ∷ bs) p = (invoke opts (start opts fuel) (map to_envelope b) >> invoke_each bs) p

  invoke_each-snoc :
      (bs : List (List (Msg × Option Pid))) (ms : List (Msg × Option Pid)) (p : Proc Msg S)
      → invoke_each (bs ++ ms ∷ []) p ≡ hand_over opts fuel (invoking ms) (invoke_each bs p)
  unfolding invoke_each hand_over ◌>>◌
  invoke_each-snoc [] ms p = go_on-returns (invoke opts (start opts fuel) (map to_envelope ms) p)
  invoke_each-snoc (b ∷ bs) ms p =
      let inv =
        λ (l : List (Msg × Option Pid)). invoke opts (start opts fuel) (map to_envelope l) in
      (λ i. go_on (λ q. invoke_each-snoc bs ms q i) (inv b p))
      ∙ go_on_assoc (invoke_each bs) (inv ms) (inv b p)

  -- No priority message and no Clear, and Start finds the inbox stopped only when nobody is busy in it.
  abbrev pub Serial : System (Msg × Option Pid) → Call (Msg × Option Pid) → Type 0
  Serial s c = InOrder s c × RestartsIdle s c

  module _ (p : Proc Msg S) where
    pub Serves-InOrder :
        {s : System (Msg × Option Pid)} {r : Proc Msg S × Exit}
        → Serves opts fuel Serial p s r
        → Reach InOrder s
    Serves-InOrder made = fresh
    Serves-InOrder (takes_call b c ts r a h) = called b c ts a.0 (Serves-InOrder h)
    Serves-InOrder (takes_step b xs pc ys r h) = moved b xs pc ys (Serves-InOrder h)

    Serves-RestartsIdle :
        {s : System (Msg × Option Pid)} {r : Proc Msg S × Exit}
        → Serves opts fuel Serial p s r
        → Reach RestartsIdle s
    Serves-RestartsIdle made = fresh
    Serves-RestartsIdle (takes_call b c ts r a h) = called b c ts a.1 (Serves-RestartsIdle h)
    Serves-RestartsIdle (takes_step b xs pc ys r h) = moved b xs pc ys (Serves-RestartsIdle h)

    -- The process is what the batches that have been handed over make of it, and the other messages
    -- that were taken are in the hands of a goroutine.
    pub record IsServed (s : System (Msg × Option Pid)) (r : Proc Msg S × Exit) : Type 0 where
      pub batches : List (List (Msg × Option Pid))
      pub run_eq : r ≡ invoke_each batches p
      pub taken_eq : concat_all batches ++ pending s.threads ≡ s.inbox.taken

    other-IsServed :
        (b : Inbox (Msg × Option Pid)) (xs : List (Pc (Msg × Option Pid)))
        (pc : Pc (Msg × Option Pid)) (ys : List (Pc (Msg × Option Pid))) (r : Proc Msg S × Exit)
        → IsOther pc
        → IsServed (record { inbox = b; threads = xs ++ pc ∷ ys }) r
        → IsServed (record { inbox = (advance b pc).0; threads = xs ++ (advance b pc).1 ++ ys }) r
    other-IsServed b xs pc ys r o h = record {
      batches = h.batches;
      run_eq = h.run_eq;
      taken_eq =
          ap (λ l. concat_all h.batches ++ l) (pending-other b xs pc ys o)
          ∙ h.taken_eq
          ∙ sym (advance-other b pc o).1;
    }

    -- A step of the goroutine `pc`, when no other one works if it does.
    step-IsServed :
        (b : Inbox (Msg × Option Pid)) (xs : List (Pc (Msg × Option Pid)))
        (pc : Pc (Msg × Option Pid)) (ys : List (Pc (Msg × Option Pid))) (r : Proc Msg S × Exit)
        → count is_working (xs ++ pc ∷ ys) ≤ 1
        → IsServed (record { inbox = b; threads = xs ++ pc ∷ ys }) r
        → IsServed
            (record { inbox = (advance b pc).0; threads = xs ++ (advance b pc).1 ++ ys })
            (hand_over opts fuel pc r)
    unfolding hand_over advance
    step-IsServed b xs popping ys r most h =
        let new = (advance b popping).1 in
        let before : concat_all h.batches ≡ b.taken =
          sym (append-nil (concat_all h.batches))
          ∙ ap (λ l. concat_all h.batches ++ l) (sym (pending-own xs ys popping most refl))
          ∙ h.taken_eq in
        record {
          batches = h.batches;
          run_eq = h.run_eq;
          taken_eq =
              ap₂ ◌++◌ before (pending-alone xs new ys popping most refl)
              ∙ pop_batch-pending b.rb b;
        }
    step-IsServed b xs (invoking ms) ys r most h = record {
      batches = h.batches ++ ms ∷ [];
      run_eq =
          ap (hand_over opts fuel (invoking ms)) h.run_eq ∙ sym (invoke_each-snoc h.batches ms p);
      taken_eq =
          ap₂ ◌++◌ (concat_all-snoc h.batches ms)
            (pending-alone xs (loading ∷ []) ys (invoking ms) most refl)
          ∙ append-nil (concat_all h.batches ++ ms)
          ∙ ap (λ l. concat_all h.batches ++ l) (sym (pending-own xs ys (invoking ms) most refl))
          ∙ h.taken_eq;
    }
    step-IsServed b xs scheduling ys r most h = other-IsServed b xs scheduling ys r tt h
    step-IsServed b xs (setting_proc q) ys r most h = other-IsServed b xs (setting_proc q) ys r tt h
    step-IsServed b xs opening ys r most h = other-IsServed b xs opening ys r tt h
    step-IsServed b xs loading ys r most h = other-IsServed b xs loading ys r tt h
    step-IsServed b xs leaving ys r most h = other-IsServed b xs leaving ys r tt h
    step-IsServed b xs checking ys r most h = other-IsServed b xs checking ys r tt h

    pub Serves-IsServed :
        {s : System (Msg × Option Pid)} {r : Proc Msg S × Exit}
        → Serves opts fuel Serial p s r
        → IsServed s r
    unfolding invoke_each
    Serves-IsServed made = record { batches = []; run_eq = refl; taken_eq = refl }
    Serves-IsServed (takes_call b c ts r a h) =
        let before = Serves-IsServed h in
        let (taken, held_same) = enter-pending b c ts in
        record {
          batches = before.batches;
          run_eq = before.run_eq;
          taken_eq =
              ap (λ l. concat_all before.batches ++ l) held_same ∙ before.taken_eq ∙ sym taken;
        }
    Serves-IsServed (takes_step b xs pc ys r h) =
        step-IsServed b xs pc ys r (one_worker _ (Serves-RestartsIdle h)).0 (Serves-IsServed h)
