-- ===== src/Process/Pill.antt =====
-- What a poison pill in the middle of a batch does in actor/process.go.
use mathlib.Core.List.{append_assoc, append-nil}
use hollywood.Base.{
  ℕ, ◌≡◌, refl, sym, ap, ◌∙◌, Bool, true, false, Option, none, some, List, [], ◌∷◌, ◌++◌, map,
  if◌then◌else◌,
}
use hollywood.Pid.{Pid}
use hollywood.Process.{
  pill, Envelope, cancelled, returns, Opts, Proc, invoke, invoke_msg, invoke_all, recover_invoke,
  Action, resume, cleanup, run_cancel, swallow,
}
use hollywood.Process.Quiet.{then_returns, recovering_returns}
use hollywood.Process.Log.{to_envelope, deliveries}
use hollywood.Process.Takes.{PanicsOn, good_step}
use hollywood.Process.Shutdown.{StopsQuietly, cleanup_log, cleanup_lem}

module _ {Msg : Type 0} where
  abbrev pub pill_envelope : Bool → Option ℕ → Envelope Msg
  pill_envelope graceful cancel = record { msg = pill graceful cancel; sender = none }

-- Every message is one that the receiver takes.
abbrev pub AllGood : {Msg : Type 0} → (Msg → Bool) → List (Msg × Option Pid) → Type 0
AllGood bad [] = Unit {0}
AllGood bad ((m, s) ∷ ms) = (bad m ≡ false) × AllGood bad ms

module _ {Msg S : Type 0} (opts : Opts Msg S) (bad : Msg → Bool) (h : PanicsOn opts bad) where
  -- A call that has delivered `ms` and goes on as `q`.
  pub record Reached (p : Proc Msg S) (ms : List (Msg × Option Pid)) (q : Proc Msg S) : Type 0 where
    pub seen : deliveries q.log ≡ deliveries p.log ++ ms
    pub counted : q.restarts ≡ p.restarts

  pub Reached-cons :
      (p q r : Proc Msg S) (a : Msg × Option Pid) (ms : List (Msg × Option Pid))
      → deliveries q.log ≡ deliveries p.log ++ a ∷ []
      → q.restarts ≡ p.restarts
      → Reached q ms r
      → Reached p (a ∷ ms) r
  Reached-cons p q r a ms seen counted t = record {
    seen = t.seen ∙ ap (λ l. l ++ ms) seen ∙ append_assoc (deliveries p.log) (a ∷ []) ms;
    counted = t.counted ∙ counted;
  }

  Reached-nil : (p : Proc Msg S) → Reached p [] p
  Reached-nil p = record { seen = sym (append-nil (deliveries p.log)); counted = refl }

  -- The loop over the messages that a graceful pill finds.
  drain_good :
      (ms : List (Msg × Option Pid)) (rest : List (Envelope Msg)) (p : Proc Msg S)
      → AllGood bad ms
      → (q : Proc Msg S) × (invoke_all opts (map to_envelope ms ++ rest) p ≡ invoke_all opts rest q)
        × Reached p ms q
  unfolding invoke_all
  drain_good [] rest p g = (p, refl, Reached-nil p)
  drain_good ((m, s) ∷ ms) rest p (e, g) =
      let (q, step, seen, counted) = good_step opts bad h m s p e in
      let (r, steps, t) = drain_good ms rest q g in
      (
        r,
        then_returns (invoke_msg opts (to_envelope (m, s))) _ p q step ∙ steps,
        Reached-cons p q r (m, s) ms seen counted t,
      )

  -- The loop of `Invoke` up to the first message that is not taken.
  invoke_good :
      (again : Action Msg S) (ms : List (Msg × Option Pid)) (rest : List (Envelope Msg))
      (p : Proc Msg S)
      → AllGood bad ms
      → (q : Proc Msg S) × (invoke opts again (map to_envelope ms ++ rest) p
          ≡ invoke opts again rest q)
        × Reached p ms q
  unfolding invoke
  invoke_good again [] rest p g = (p, refl, Reached-nil p)
  invoke_good again ((m, s) ∷ ms) rest p (e, g) =
      let (q, step, seen, counted) = good_step opts bad h m s p e in
      let (r, steps, t) = invoke_good again ms rest q g in
      (
        r,
        ap
              (resume (invoke opts again (map to_envelope ms ++ rest))
                (recover_invoke opts again (map to_envelope ms ++ rest)))
              step
            ∙ steps,
        Reached-cons p q r (m, s) ms seen counted t,
      )

  cleanup-some :
      StopsQuietly opts
      → (c : ℕ) (p : Proc Msg S)
      → (q : Proc Msg S) × (cleanup opts (some c) p ≡ (q, returns))
        × (q.log ≡ (p.log ++ cleanup_log opts p) ++ cancelled c ∷ [])
  unfolding run_cancel
  cleanup-some quiet c p = (_, cleanup_lem opts quiet (some c) p, refl)

  swallow_good :
      StopsQuietly opts
      → (again : Action Msg S) (graceful : Bool) (c : ℕ) (post : List (Msg × Option Pid))
        (p : Proc Msg S)
      → AllGood bad post
      → (q r : Proc Msg S) × (swallow opts again graceful
            (some c)
            (pill_envelope graceful (some c) ∷ map to_envelope post)
            p
          ≡ (r, returns))
        × Reached p (if graceful then post else []) q
        × (r.log ≡ (q.log ++ cleanup_log opts q) ++ cancelled c ∷ [])
  unfolding swallow invoke_all invoke_msg
  swallow_good quiet again false c post p g =
      let (r, step, log) = cleanup-some quiet c p in (p, r, step, Reached-nil p, log)
  swallow_good quiet again true c post p g =
      let (q, steps, t) = drain_good post [] p g in
      let (r, step, log) = cleanup-some quiet c q in
      (
        q,
        r,
        then_returns (invoke_all opts (pill_envelope true (some c) ∷ map to_envelope post)) _ p q (
              then_returns _ _ p p refl
              ∙ ap (λ l. invoke_all opts l p) (sym (append-nil (map to_envelope post)))
              ∙ steps)
            ∙ step,
        t,
        log,
      )

  -- A pill in a batch that the receiver takes: `Invoke` returns, the messages before the pill have
  -- been delivered, those after it too if the pill is graceful and not otherwise, and only then
  -- comes the cleanup, with the pill's `cancel` at its very end.
  pub invoke-pill :
      StopsQuietly opts
      → (again : Action Msg S) (pre post : List (Msg × Option Pid)) (graceful : Bool) (c : ℕ)
        (p : Proc Msg S)
      → AllGood bad pre
      → AllGood bad post
      → (q r : Proc Msg S) × (invoke opts again
            (map to_envelope pre ++ pill_envelope graceful (some c) ∷ map to_envelope post)
            p
          ≡ (r, returns))
        × (deliveries q.log ≡ deliveries p.log ++ pre ++ (if graceful then post else []))
        × (r.log ≡ (q.log ++ cleanup_log opts q) ++ cancelled c ∷ [])
  unfolding invoke
  invoke-pill quiet again pre post graceful c p g k =
      let rest = map to_envelope post in
      let whole = pill_envelope graceful (some c) ∷ rest in
      let (p', steps, t) = invoke_good again pre whole p g in
      let (q, r, step, u, log) = swallow_good quiet again graceful c post p' k in
      (
        q,
        r,
        steps
            ∙ recovering_returns (swallow opts again graceful (some c) whole)
                (recover_invoke opts again rest) p' (ap (λ t. t.1) step)
            ∙ step,
        u.seen ∙ ap (λ l. l ++ (if graceful then post else [])) t.seen,
        log,
      )
