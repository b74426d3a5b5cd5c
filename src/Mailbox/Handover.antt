-- ===== src/Mailbox/Handover.antt =====
-- From a send to the receiver, through the interleavings of actor/inbox.go and the restarts of
-- actor/process.go.
use mathlib.Core.List.{append-nil}
use hollywood.Base.{
  ℕ, ◌+◌, ◌^◌, ◌≤◌, ◌<◌, ◌≡◌, ◌≢◌, refl, sym, ap, ◌∙◌, inl, inr, ◌⊎◌, Bool, Option, List, [], ◌∷◌,
  ◌++◌, map, arith,
}
use hollywood.Pid.{Pid}
use hollywood.Inbox.{System, stopped}
use hollywood.Inbox.Invariant.{quiescent-is_empty}
use hollywood.Inbox.Order.{sent-InOrder}
use hollywood.Process.{Opts, Proc, Exit, returns, invoke, start}
use hollywood.Process.Log.{to_envelope, deliveries}
use hollywood.Process.Quiet.{pair_eq, then_returns}
use hollywood.Process.Takes.{PanicsOn}
use hollywood.Process.Delivery.{Delivered, Delivered-after, count_bad, invoke-Delivered}
use hollywood.Mailbox.{Serves}
use hollywood.Mailbox.Batches.{
  concat_all, pending, invoke_each, Serial, Serves-InOrder, Serves-IsServed,
}

module _ {Msg S : Type 0} (opts : Opts Msg S) (bad : Msg → Bool) where
  count_bad-append :
      (xs ys : List (Msg × Option Pid))
      → count_bad opts bad (xs ++ ys) ≡ count_bad opts bad xs + count_bad opts bad ys
  count_bad-append [] ys = omega arith
  count_bad-append ((m, s) ∷ xs) ys = omega (arith, count_bad-append xs ys)

  -- Batches one after another are delivered as one.
  invoke_each-Delivered :
      PanicsOn opts bad
      → opts.max_restarts < 2 ^ 31
      → (fuel : ℕ) (bs : List (List (Msg × Option Pid))) (p : Proc Msg S)
      → count_bad opts bad (concat_all bs) ≤ fuel
      → p.restarts + count_bad opts bad (concat_all bs) ≤ opts.max_restarts
      → Delivered opts bad p
          (concat_all bs)
          (count_bad opts bad (concat_all bs))
          (invoke_each opts fuel bs p)
  unfolding invoke_each
  invoke_each-Delivered h small fuel [] p enough left = record {
    exit = refl;
    seen = sym (append-nil (deliveries p.log));
    counted = omega arith;
  }
  invoke_each-Delivered h small fuel (b ∷ bs) p enough left =
      let total = count_bad-append b (concat_all bs) in
      let first =
        invoke-Delivered opts bad h small b fuel p (omega (arith, total)) (omega (arith, total)) in
      let q : Proc Msg S = (invoke opts (start opts fuel) (map to_envelope b) p).0 in
      let rest =
        invoke_each-Delivered h small fuel bs q (omega (arith, total))
          (omega (arith, total, first.counted)) in
      rw
        (
          then_returns (invoke opts (start opts fuel) (map to_envelope b))
              (invoke_each opts fuel bs) p q (pair_eq first.exit),
          total,
        )
        (Delivered-after opts bad p q b (concat_all bs) (count_bad opts bad b)
          (count_bad opts bad (concat_all bs)) (invoke_each opts fuel bs q) first.seen first.counted
          rest)

  -- Messages are sent to an inbox without priority and none is cleared, in any interleaving of the calls
  -- with its goroutines; Start never finds the inbox stopped with a goroutine still busy in it; and a
  -- goroutine that has taken a batch calls Invoke of the process with it. Once every goroutine has
  -- ended and the inbox is not stopped, the process has returned from every Invoke, and its receiver has
  -- been called with every message that was ever sent, once and in the order of the sends, if there
  -- were restarts left for every bad message.
  pub Serves-sent :
      (fuel : ℕ) (p : Proc Msg S) (s : System (Msg × Option Pid)) (r : Proc Msg S × Exit)
      → Serves opts fuel (Serial opts fuel) p s r
      → s.threads ≡ []
      → s.inbox.proc_status ≢ stopped
      → PanicsOn opts bad
      → opts.max_restarts < 2 ^ 31
      → count_bad opts bad s.inbox.sent ≤ fuel
      → p.restarts + count_bad opts bad s.inbox.sent ≤ opts.max_restarts
      → (r.1 ≡ returns)
        × (deliveries r.0.log ≡ deliveries p.log ++ s.inbox.sent)
        × (r.0.restarts ≡ p.restarts + count_bad opts bad s.inbox.sent)
  Serves-sent fuel p s r serves ended runs h small enough left =
      let reach = Serves-InOrder opts fuel p serves in
      let v = Serves-IsServed opts fuel p serves in
      let all : concat_all v.batches ≡ s.inbox.sent =
        sym (append-nil (concat_all v.batches))
        ∙ ap (λ ts. concat_all v.batches ++ pending ts) (sym ended)
        ∙ v.taken_eq
        ∙ sym (append-nil s.inbox.taken)
        ∙ ap (◌++◌ (s.inbox.taken)) (sym (emptied (quiescent-is_empty s reach ended)))
        ∙ sym (sent-InOrder s reach) in
      let d = invoke_each-Delivered h small fuel v.batches p (rw all enough) (rw all left) in
      (
        ap (λ x. x.1) v.run_eq ∙ d.exit,
        ap (λ x. deliveries x.0.log) v.run_eq ∙ d.seen ∙ ap (λ l. deliveries p.log ++ l) all,
        ap (λ x. x.0.restarts) v.run_eq
            ∙ d.counted
            ∙ ap (λ l. p.restarts + count_bad opts bad l) all,
      )
    where
      emptied : (s.inbox.proc_status ≡ stopped) ⊎ (s.inbox.rb ≡ []) → s.inbox.rb ≡ []
      emptied (inl e) = absurd (runs e)
      emptied (inr e) = e
