-- ===== src/Process/Delivery.antt =====
-- What actor/process.go promises of a batch: every message reaches the receiver once and in order,
-- across the panics and restarts that some of them cause.
use mathlib.Core.List.{append_assoc, append-nil}
use hollywood.Base.{
  ℕ, zero, suc, ◌+◌, ◌^◌, ◌≤◌, ◌<◌, ◌≡◌, refl, sym, ap, subst, ◌∙◌, Bool, true, false, Option, List,
  [], ◌∷◌, ◌++◌, map, arith, if◌then◌else◌, Bool-cases, inl, inr,
}
use hollywood.Pid.{Pid}
use hollywood.Process.{
  inbox_started, Exit, returns, Opts, Proc, invoke, start, start_body, recover_invoke,
  invoke_buffer, Action, emit,
}
use hollywood.Process.{◌>>◌, do_emit, recover_start, resume}
use hollywood.Process.Quiet.{Same, Quietly, pair_eq, then_returns, recovering_returns}
use hollywood.Process.Log.{to_envelope, deliveries, deliveries-quiet}
use hollywood.Process.Takes.{PanicsOn, prelude_Quietly, good_step, recover_step, bad_step}

module _ {Msg S : Type 0} (opts : Opts Msg S) (bad : Msg → Bool) where
  abbrev pub count_bad : List (Msg × Option Pid) → ℕ
  count_bad [] = 0
  count_bad ((m, s) ∷ ms) = (if bad m then 1 else 0) + count_bad ms

  -- A call that returns, having delivered `ms` after `n` restarts.
  pub record Delivered (p : Proc Msg S) (ms : List (Msg × Option Pid)) (n : ℕ)
      (r : Proc Msg S × Exit) : Type 0 where
    pub exit : r.1 ≡ returns
    pub seen : deliveries r.0.log ≡ deliveries p.log ++ ms
    pub counted : r.0.restarts ≡ p.restarts + n

  Delivered-then :
      (a b : Action Msg S) (p : Proc Msg S) (ms : List (Msg × Option Pid)) (n : ℕ)
      → Quietly a p
      → ((q : Proc Msg S) → Same p q → Delivered q ms n (b q))
      → Delivered p ms n ((a >> b) p)
  Delivered-then a b p ms n (q, e, s) f =
      let d = f q s in
      rw (then_returns a b p q e) (record {
        exit = d.exit;
        seen = d.seen ∙ ap (λ l. l ++ ms) s.seen;
        counted = d.counted ∙ ap (λ (k : ℕ). k + n) s.counted;
      })

  Delivered-before :
      (a b : Action Msg S) (p : Proc Msg S) (ms : List (Msg × Option Pid)) (n : ℕ)
      → Delivered p ms n (a p)
      → ((q : Proc Msg S)
          → (r : Proc Msg S) × (b q ≡ (r, returns))
            × (deliveries r.log ≡ deliveries q.log)
            × (r.restarts ≡ q.restarts))
      → Delivered p ms n ((a >> b) p)
  Delivered-before a b p ms n d f =
      let (q, e, seen, counted) = f (a p).0 in
      rw (then_returns a b p (a p).0 (pair_eq d.exit), e)
        (record { exit = refl; seen = seen ∙ d.seen; counted = counted ∙ d.counted })

  buffer_delivers :
      (fuel : ℕ) (ms : List (Msg × Option Pid)) (n : ℕ) (p : Proc Msg S)
      → n ≡ count_bad ms
      → Delivered p ms n (invoke opts (start opts fuel) (map to_envelope ms) p)
      → Delivered p ms n (invoke_buffer opts (start opts fuel) (map to_envelope ms) p)
  unfolding invoke_buffer
  buffer_delivers fuel [] n p e d = record {
    exit = refl;
    seen = sym (append-nil (deliveries p.log));
    counted = omega (arith, e);
  }
  buffer_delivers fuel (m ∷ ms) n p e d =
      Delivered-before _ _ p (m ∷ ms) n d (λ q. (record q { mbuffer = [] }, refl, refl, refl))

  pub start_delivers :
      PanicsOn opts bad
      → (fuel : ℕ) (ms : List (Msg × Option Pid)) (p : Proc Msg S) → p.mbuffer ≡ map to_envelope ms
      → ((q : Proc Msg S)
          → q.restarts ≡ p.restarts
          → Delivered q ms (count_bad ms) (invoke opts (start opts fuel) (map to_envelope ms) q))
      → Delivered p ms (count_bad ms) (start opts (suc fuel) p)
  unfolding start start_body
  start_delivers h fuel ms p e ih =
      rw
        (recovering_returns (start_body opts (start opts fuel))
          (recover_start opts (start opts fuel)) fresh body.exit)
        (record { exit = body.exit; seen = body.seen; counted = body.counted })
    where
      fresh : Proc Msg S
      fresh = record p { receiver = opts.producer }

      body : Delivered fresh ms (count_bad ms) (start_body opts (start opts fuel) fresh)
      body =
          Delivered-before _ (do_emit inbox_started) fresh ms (count_bad ms)
            (Delivered-then _ (λ q. invoke_buffer opts (start opts fuel) q.mbuffer q) fresh ms
              (count_bad ms) (prelude_Quietly opts bad h fresh)
              (λ q s.
                subst
                  (λ b. Delivered q ms (count_bad ms) (invoke_buffer opts (start opts fuel) b q))
                  (sym (s.kept ∙ e))
                  (buffer_delivers fuel ms (count_bad ms) q refl (ih q s.counted))))
            (λ q. (emit inbox_started q, refl, deliveries-quiet q.log inbox_started refl, refl))

  -- Some deliveries, and then the others.
  pub Delivered-after :
      (p q : Proc Msg S) (first ms : List (Msg × Option Pid)) (k n : ℕ) (r : Proc Msg S × Exit)
      → deliveries q.log ≡ deliveries p.log ++ first
      → q.restarts ≡ p.restarts + k
      → Delivered q ms n r
      → Delivered p (first ++ ms) (k + n) r
  Delivered-after p q first ms k n r seen counted d = record {
    exit = d.exit;
    seen = d.seen ∙ ap (λ l. l ++ ms) seen ∙ append_assoc (deliveries p.log) first ms;
    counted = omega (arith, d.counted);
  }

  after_bad :
      PanicsOn opts bad
      → (m : Msg) (s : Option Pid) (ms : List (Msg × Option Pid)) (fuel : ℕ) (p : Proc Msg S)
      → bad m ≡ true
      → p.restarts < opts.max_restarts
      → opts.max_restarts < 2 ^ 31
      → ((q : Proc Msg S)
          → q.restarts ≡ suc p.restarts
          → Delivered q ms (count_bad ms) (invoke opts (start opts fuel) (map to_envelope ms) q))
      → Delivered p
          ((m, s) ∷ ms)
          (1 + count_bad ms)
          (invoke opts (start opts (suc fuel)) (map to_envelope ((m, s) ∷ ms)) p)
  unfolding invoke
  after_bad h m s ms fuel p e less small ih =
      let (k, p', step, seen, counted) = bad_step opts bad h m s p e in
      let rest = map to_envelope ms in
      let (q, again, seen', counted', buffered) =
        recover_step opts bad h (start opts (suc fuel)) rest k p' (omega (arith, counted)) small in
      subst (Delivered p ((m, s) ∷ ms) (1 + count_bad ms))
        (sym (
          ap
            (resume (invoke opts (start opts (suc fuel)) rest)
              (recover_invoke opts (start opts (suc fuel)) rest))
            step
          ∙ again))
        (Delivered-after p q ((m, s) ∷ []) ms 1 (count_bad ms) _ (seen' ∙ seen)
          (omega (arith, counted', counted))
          (start_delivers h fuel ms q buffered (λ r same. ih r (same ∙ counted' ∙ ap suc counted))))

  after_good :
      PanicsOn opts bad
      → (m : Msg) (s : Option Pid) (ms : List (Msg × Option Pid)) (again : Action Msg S)
        (p : Proc Msg S)
      → bad m ≡ false
      → ((q : Proc Msg S)
          → q.restarts ≡ p.restarts
          → Delivered q ms (count_bad ms) (invoke opts again (map to_envelope ms) q))
      → Delivered p
          ((m, s) ∷ ms)
          (0 + count_bad ms)
          (invoke opts again (map to_envelope ((m, s) ∷ ms)) p)
  unfolding invoke
  after_good h m s ms again p e ih =
      let (q, step, seen, counted) = good_step opts bad h m s p e in
      subst (Delivered p ((m, s) ∷ ms) (0 + count_bad ms))
        (sym (
          ap
            (resume (invoke opts again (map to_envelope ms))
              (recover_invoke opts again (map to_envelope ms)))
            step))
        (Delivered-after p q ((m, s) ∷ []) ms 0 (count_bad ms) _ seen (omega (arith, counted))
          (ih q counted))

  one_bad :
      (m : Msg) (s : Option Pid) (ms : List (Msg × Option Pid))
      → bad m ≡ true
      → count_bad ((m, s) ∷ ms) ≡ suc (count_bad ms)
  one_bad m s ms e = rw e (omega arith)

  none_bad :
      (m : Msg) (s : Option Pid) (ms : List (Msg × Option Pid))
      → bad m ≡ false
      → count_bad ((m, s) ∷ ms) ≡ count_bad ms
  none_bad m s ms e = rw e (omega arith)

  -- With restarts left for every bad message, `Invoke` returns after it has called the receiver
  -- with every message of the batch exactly once and in order, and each bad one has cost one restart.
  pub invoke-Delivered :
      PanicsOn opts bad
      → opts.max_restarts < 2 ^ 31
      → (ms : List (Msg × Option Pid)) (fuel : ℕ) (p : Proc Msg S) → count_bad ms ≤ fuel
      → p.restarts + count_bad ms ≤ opts.max_restarts
      → Delivered p ms (count_bad ms) (invoke opts (start opts fuel) (map to_envelope ms) p)
  unfolding invoke
  invoke-Delivered h small [] fuel p enough left = record {
    exit = refl;
    seen = sym (append-nil (deliveries p.log));
    counted = omega arith;
  }
  invoke-Delivered h small ((m, s) ∷ ms) zero p enough left = elim (Bool-cases (bad m)) [
    | inl e ↦ absurd (omega (arith, one_bad m s ms e))
    | inr e ↦ rw e (
        after_good h m s ms (start opts 0) p e (λ q same.
          invoke-Delivered h small ms 0 q (omega (arith, none_bad m s ms e))
            (omega (arith, none_bad m s ms e))))
  ]
  invoke-Delivered h small ((m, s) ∷ ms) (suc fuel) p enough left = elim (Bool-cases (bad m)) [
    | inl e ↦ rw e (
        after_bad h m s ms fuel p e (omega (arith, one_bad m s ms e)) small (λ q same.
          invoke-Delivered h small ms fuel q (omega (arith, one_bad m s ms e))
            (omega (arith, one_bad m s ms e))))
    | inr e ↦ rw e (
        after_good h m s ms (start opts (suc fuel)) p e (λ q same.
          invoke-Delivered h small ms (suc fuel) q (omega (arith, none_bad m s ms e))
            (omega (arith, none_bad m s ms e))))
  ]
