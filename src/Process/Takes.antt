-- ===== src/Process/Takes.antt =====
-- The messages of a batch in actor/process.go one at a time: those that the receiver takes, and those on
-- which it panics, with the restart that follows.
use hollywood.Base.{
  ℕ, suc, ◌+◌, ◌^◌, ◌<◌, ◌≡◌, refl, ap, ◌∙◌, Bool, true, false, Option, none, some, List, [], ◌∷◌,
  ◌++◌, arith, nat_beq_lt, ◌%◌,
}
use hollywood.Pid.{Pid}
use hollywood.Process.{
  user, initialized, started, stopped, Envelope, received, broadcast, slept, Reason, user_panic,
  returns, panics, actor_initialized, actor_started, actor_restarted, Opts, Proc, wrapped,
  invoke_msg, try_restart, recover_invoke, Action, emit, call,
}
use hollywood.Process.{◌>>◌, do_emit, to_exit}
use hollywood.Process.Quiet.{
  Quietly, pair_eq, then_returns, Quietly-then, call-Quietly, emit_Quietly,
}
use hollywood.Process.Log.{to_envelope, deliveries, deliveries-snoc, deliveries-quiet}

module _ {Msg S : Type 0} (opts : Opts Msg S) (bad : Msg → Bool) where
  -- A receiver that panics on the bad messages, and on nothing else.
  pub record PanicsOn : Type 0 where
    pub reason : Msg → ℕ
    pub on_bad :
        (m : Msg) (s : Option Pid) (r : S)
        → bad m ≡ true
        → (wrapped opts (user m) s r).1 ≡ some (user_panic (reason m))
    pub on_good :
        (m : Msg) (s : Option Pid) (r : S) → bad m ≡ false → (wrapped opts (user m) s r).1 ≡ none
    pub on_initialized : (s : Option Pid) (r : S) → (wrapped opts initialized s r).1 ≡ none
    pub on_started : (s : Option Pid) (r : S) → (wrapped opts started s r).1 ≡ none
    pub on_stopped : (s : Option Pid) (r : S) → (opts.receive stopped s r).1 ≡ none

  pub prelude_Quietly :
      PanicsOn
      → (p : Proc Msg S)
      → Quietly
          (call (wrapped opts) initialized
            >> do_emit (broadcast actor_initialized)
            >> call (wrapped opts) started
            >> do_emit (broadcast actor_started))
          p
  prelude_Quietly h p =
      Quietly-then _ _ p
        (Quietly-then _ _ p
          (Quietly-then _ _ p
            (call-Quietly (wrapped opts) initialized p refl (h.on_initialized p.sender p.receiver))
            (λ q s. emit_Quietly (broadcast actor_initialized) q refl))
          (λ q s. call-Quietly (wrapped opts) started q refl (h.on_started q.sender q.receiver)))
        (λ q s. emit_Quietly (broadcast actor_started) q refl)

  -- A message that the receiver takes.
  pub good_step :
      PanicsOn
      → (m : Msg) (s : Option Pid) (p : Proc Msg S) → bad m ≡ false
      → (q : Proc Msg S) × (invoke_msg opts (to_envelope (m, s)) p ≡ (q, returns))
        × (deliveries q.log ≡ deliveries p.log ++ (m, s) ∷ [])
        × (q.restarts ≡ p.restarts)
  unfolding invoke_msg
  good_step h m s p e = (
    (call (wrapped opts) (user m) (record p { sender = s })).0,
    pair_eq (ap to_exit (h.on_good m s p.receiver e)),
    deliveries-snoc p.log (received (user m) s),
    refl,
  )

  restarted : Reason → Proc Msg S → Proc Msg S
  restarted v p =
      let n = (p.restarts + 1) % 2 ^ 32 in
      emit slept (record (emit (broadcast (actor_restarted v n)) p) { restarts = n })

  try_restart_again :
      (again : Action Msg S) (k : ℕ) (p : Proc Msg S)
      → p.restarts < opts.max_restarts
      → try_restart opts again (user_panic k) p ≡ again (restarted (user_panic k) p)
  unfolding try_restart restarted
  try_restart_again again k p less = rw (nat_beq_lt p.restarts opts.max_restarts less, try_restart)

  restarted_facts :
      (v : Reason) (p : Proc Msg S)
      → p.restarts < 2 ^ 31
      → (deliveries (restarted v p).log ≡ deliveries p.log)
        × ((restarted v p).restarts ≡ suc p.restarts)
        × ((restarted v p).mbuffer ≡ p.mbuffer)
  unfolding restarted
  restarted_facts v p small =
      let n = (p.restarts + 1) % 2 ^ 32 in
      let event = broadcast (actor_restarted v n) in
      (
        deliveries-quiet (p.log ++ event ∷ []) slept refl ∙ deliveries-quiet p.log event refl,
        omega arith,
        refl,
      )

  -- After a panic with restarts left the next start has the rest in its buffer.
  pub recover_step :
      PanicsOn
      → (again : Action Msg S) (rest : List (Envelope Msg)) (k : ℕ) (p : Proc Msg S)
      → p.restarts < opts.max_restarts
      → opts.max_restarts < 2 ^ 31
      → (q : Proc Msg S) × (recover_invoke opts again rest (user_panic k) p ≡ again q)
        × (deliveries q.log ≡ deliveries p.log)
        × (q.restarts ≡ suc p.restarts)
        × (q.mbuffer ≡ rest)
  unfolding recover_invoke
  recover_step h again rest k p less small =
      let q : Proc Msg S = (call opts.receive stopped p).0 in
      let facts = restarted_facts (user_panic k) (record q { mbuffer = rest }) (omega arith) in
      (
        restarted (user_panic k) (record q { mbuffer = rest }),
        then_returns (call opts.receive stopped) _ p q
              (pair_eq (ap to_exit (h.on_stopped p.sender p.receiver)))
            ∙ try_restart_again again k (record q { mbuffer = rest }) less,
        facts.0 ∙ deliveries-quiet p.log (received stopped p.sender) refl,
        facts.1,
        facts.2,
      )

  -- A message on which the receiver panics counts as delivered.
  pub bad_step :
      PanicsOn
      → (m : Msg) (s : Option Pid) (p : Proc Msg S) → bad m ≡ true
      → (k : ℕ) × (q : Proc Msg S) × (invoke_msg opts (to_envelope (m, s)) p
          ≡ (q, panics (user_panic k)))
        × (deliveries q.log ≡ deliveries p.log ++ (m, s) ∷ [])
        × (q.restarts ≡ p.restarts)
  unfolding invoke_msg
  bad_step h m s p e = (
    h.reason m,
    (call (wrapped opts) (user m) (record p { sender = s })).0,
    pair_eq (ap to_exit (h.on_bad m s p.receiver e)),
    deliveries-snoc p.log (received (user m) s),
    refl,
  )
