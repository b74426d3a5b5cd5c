-- ===== src/Process/Shutdown.antt =====
-- How an actor of actor/process.go ends: by a pill, or by one panic too many.
use mathlib.Core.List.{append_assoc, append-nil}
use hollywood.Base.{
  ℕ, ◌≡◌, refl, sym, ap, ◌∙◌, Option, none, List, [], ◌∷◌, ◌++◌, map, nat_beq, nat_beq_refl,
  if◌then◌else◌, Bool-cases, inl, inr,
}
use hollywood.Pid.{Pid}
use hollywood.Process.{
  stopped, Effect, received, broadcast, inbox_stopped, unregistered, left_parent, child_poisoned,
  user_panic, nil_call, Exit, returns, panics, actor_stopped, actor_max_restarts_exceeded, Opts,
  Proc, wrapped, try_restart, Action, emit, call, ◌>>◌, do_emit, to_exit, cleanup, run_cancel,
  poison_children, leave_parent, shutdown,
}
use hollywood.Process.Quiet.{pair_eq, then_returns}

module _ {Msg S : Type 0} (opts : Opts Msg S) where
  -- What a cleanup does before it calls `cancel`: it leaves the parent, stops the children, then
  -- the inbox, then gives up its name, and only then tells its receiver and the event stream.
  abbrev pub cleanup_log : Proc Msg S → List (Effect Msg)
  cleanup_log p =
      (if opts.has_parent then left_parent ∷ [] else [])
      ++ map child_poisoned p.children
      ++ inbox_stopped ∷ unregistered ∷ received stopped p.sender ∷ broadcast actor_stopped ∷ []

  poison_children_log :
      (cs : List Pid) (p : Proc Msg S)
      → poison_children opts cs p ≡ record p { log = p.log ++ map child_poisoned cs }
  unfolding poison_children
  poison_children_log [] p = ap (λ l. record p { log = l }) (sym (append-nil p.log))
  poison_children_log (c ∷ cs) p =
      poison_children_log cs (emit (child_poisoned c) p)
      ∙ ap (λ l. record p { log = l })
          (append_assoc p.log (child_poisoned c ∷ []) (map child_poisoned cs))

  leave_parent_log :
      (p : Proc Msg S)
      → leave_parent opts p
        ≡ record p { log = p.log ++ (if opts.has_parent then left_parent ∷ [] else []) }
  unfolding leave_parent
  leave_parent_log p = elim (Bool-cases opts.has_parent) [
    | inl e ↦ rw (e, leave_parent)
    | inr e ↦ rw (e, leave_parent) (ap (λ l. record p { log = l }) (sym (append-nil p.log)))
  ]

  -- A receiver that does not panic on `Stopped`.
  abbrev pub StopsQuietly : Type 0
  StopsQuietly = (s : Option Pid) (r : S) → (wrapped opts stopped s r).1 ≡ none

  pub cleanup_lem :
      StopsQuietly
      → (cancel : Option ℕ) (p : Proc Msg S)
      → cleanup opts cancel p
        ≡ run_cancel opts cancel (
          record p {
            log = p.log ++ cleanup_log p;
            receiver = (wrapped opts stopped p.sender p.receiver).0;
          },
          returns,
        )
  unfolding cleanup
  cleanup_lem quiet cancel p =
      ap (λ q. finish (poison_children opts q.children q)) (leave_parent_log p)
      ∙ ap finish (poison_children_log p.children left)
      ∙ ap (run_cancel opts cancel) (
          then_returns (call (wrapped opts) stopped) (do_emit (broadcast actor_stopped)) _ _
            (pair_eq (ap to_exit (quiet p.sender p.receiver))))
      ∙ ap
          (λ l. run_cancel opts cancel (
            record p { log = l; receiver = (wrapped opts stopped p.sender p.receiver).0 },
            returns,
          ))
          (simp append_assoc)
    where
      left : Proc Msg S
      left = record p { log = p.log ++ (if opts.has_parent then left_parent ∷ [] else []) }

      finish : Proc Msg S → Proc Msg S × Exit
      finish q = run_cancel opts cancel (
          (call (wrapped opts) stopped >> do_emit (broadcast actor_stopped))
            (emit unregistered (emit inbox_stopped q)))

  -- The actor has used up its restarts, or is shut down by `Shutdown`: all of the cleanup runs, and
  -- then its deferred call of a nil function panics.
  cleanup-none :
      StopsQuietly
      → (p : Proc Msg S)
      → (q : Proc Msg S) × (cleanup opts none p ≡ (q, panics nil_call))
        × (q.log ≡ p.log ++ cleanup_log p)
  unfolding run_cancel
  cleanup-none quiet p = (_, cleanup_lem quiet none p, refl)

  -- One panic too many: the process announces it and cleans up, and then panics itself on the nil
  -- `cancel` that it passes to its cleanup, whatever the panic was but an internal error.
  pub try_restart-exhausted :
      StopsQuietly
      → (again : Action Msg S) (k : ℕ) (p : Proc Msg S) → p.restarts ≡ opts.max_restarts
      → (q : Proc Msg S) × (try_restart opts again (user_panic k) p ≡ (q, panics nil_call))
        × (q.log ≡ p.log ++ broadcast actor_max_restarts_exceeded ∷ cleanup_log p)
  unfolding try_restart
  try_restart-exhausted quiet again k p e =
      let (q, step, log) = cleanup-none quiet (emit (broadcast actor_max_restarts_exceeded) p) in
      (
        q,
        rw (ap (λ n. nat_beq n opts.max_restarts) e ∙ nat_beq_refl opts.max_restarts, try_restart)
            step,
        log ∙ append_assoc p.log (broadcast actor_max_restarts_exceeded ∷ []) (cleanup_log p),
      )

  -- `Shutdown` ends in the same panic.
  pub shutdown_panics :
      StopsQuietly
      → (p : Proc Msg S)
      → (q : Proc Msg S) × (shutdown opts p ≡ (q, panics nil_call))
        × (q.log ≡ p.log ++ cleanup_log p)
  unfolding shutdown
  shutdown_panics quiet p = cleanup-none quiet p
