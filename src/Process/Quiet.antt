-- ===== src/Process/Quiet.antt =====
-- Steps of actor/process.go that return and deliver no user's message.
use hollywood.Base.{◌≡◌, refl, sym, ap, ◌∙◌, none, []}
use hollywood.Process.{
  Body, Reason, Exit, returns, panics, Effect, received, Proc, Action, ReceiveFunc, emit, do_emit,
  call, to_exit, ◌>>◌, go_on, rescue, recovering,
}
use hollywood.Process.Log.{deliveries, delivered_by, deliveries-quiet}

module _ {Msg S : Type 0} where
  -- The same deliveries, restarts and buffer.
  pub record Same (p q : Proc Msg S) : Type 0 where
    pub seen : deliveries q.log ≡ deliveries p.log
    pub counted : q.restarts ≡ p.restarts
    pub kept : q.mbuffer ≡ p.mbuffer

  abbrev pub Quietly : Action Msg S → Proc Msg S → Type 0
  Quietly a p = (q : Proc Msg S) × (a p ≡ (q, returns)) × Same p q

  pub Same-trans : {p q r : Proc Msg S} → Same p q → Same q r → Same p r
  Same-trans s t = record {
    seen = t.seen ∙ s.seen;
    counted = t.counted ∙ s.counted;
    kept = t.kept ∙ s.kept;
  }

  pub pair_eq : {r : Proc Msg S × Exit} {x : Exit} → r.1 ≡ x → r ≡ (r.0, x)
  pair_eq {r} e = λ i. (r.0, e i)

  pub then_returns : (a b : Action Msg S) (p q : Proc Msg S) → a p ≡ (q, returns) → (a >> b) p ≡ b q
  unfolding ◌>>◌
  then_returns a b p q e = ap (go_on b) e

  pub then_panics :
      (a b : Action Msg S) (p q : Proc Msg S) (v : Reason)
      → a p ≡ (q, panics v)
      → (a >> b) p ≡ (q, panics v)
  unfolding ◌>>◌
  then_panics a b p q v e = ap (go_on b) e

  pub Quietly-then :
      (a b : Action Msg S) (p : Proc Msg S)
      → Quietly a p
      → ((q : Proc Msg S) → Same p q → Quietly b q)
      → Quietly (a >> b) p
  Quietly-then a b p (q, e, s) f =
      let (r, e', s') = f q s in (r, then_returns a b p q e ∙ e', Same-trans s s')

  pub call-Quietly :
      (f : ReceiveFunc Msg S) (body : Body Msg) (p : Proc Msg S)
      → delivered_by (received body p.sender) ≡ []
      → (f body p.sender p.receiver).1 ≡ none
      → Quietly (call f body) p
  call-Quietly f body p quiet e = (
    (call f body p).0,
    pair_eq (ap to_exit e),
    record {
      seen = deliveries-quiet p.log (received body p.sender) quiet;
      counted = refl;
      kept = refl;
    },
  )

  pub emit_Quietly : (e : Effect Msg) (p : Proc Msg S) → delivered_by e ≡ [] → Quietly (do_emit e) p
  emit_Quietly e p quiet = (
    emit e p,
    refl,
    record { seen = deliveries-quiet p.log e quiet; counted = refl; kept = refl },
  )

  pub recovering_returns :
      (a : Action Msg S) (h : Reason → Action Msg S) (p : Proc Msg S)
      → (a p).1 ≡ returns
      → recovering a h p ≡ a p
  unfolding recovering
  recovering_returns a h p e = ap (rescue h) (pair_eq {r = a p} e) ∙ sym (pair_eq e)

  pub recovering_panics :
      (a : Action Msg S) (h : Reason → Action Msg S) (p q : Proc Msg S) (v : Reason)
      → a p ≡ (q, panics v)
      → recovering a h p ≡ h v q
  unfolding recovering
  recovering_panics a h p q v e = ap (rescue h) e
