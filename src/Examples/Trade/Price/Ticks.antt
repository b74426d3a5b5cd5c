-- ===== src/Examples/Trade/Price/Ticks.antt =====
-- What the ticks of its timer and the messages of its subscribers make of a watcher of prices of
-- examples/trade-engine.
use hollywood.Base.{
  ℕ, suc, ◌+◌, ◌*◌, ◌≡◌, refl, ap, ◌∙◌, nat_eq, String, some, List, [], ◌∷◌, ◌++◌, map, values,
  if◌then◌else◌, arith,
}
use hollywood.Pid.{Pid}
use hollywood.EventStream.{Ref, Subs, Msg, event_sub, event_unsub, event}
use hollywood.EventStream
use hollywood.Examples.Trade.Price.{
  PriceWatcher, PriceMsg, subscribe, unsubscribe, trigger, PriceEffect, sent_update, poisoned,
  send_updates, refresh_price, no_subscribers, receive_all,
}

-- The messages of a watcher as those of an event stream whose events are the ticks of the timer.
abbrev pub from_stream : Msg ℕ → PriceMsg
from_stream (event_sub r) = subscribe r
from_stream (event_unsub r) = unsubscribe r
from_stream (event now) = trigger now

abbrev pub triggers : List (Msg ℕ) → ℕ
triggers [] = 0
triggers (event now ∷ ms) = suc (triggers ms)
triggers (m ∷ ms) = triggers ms

-- The ticks that find no subscriber.
unfoldable pub idle : Subs → List (Msg ℕ) → ℕ
idle subs [] = 0
idle subs (event now ∷ ms) = if no_subscribers subs then suc (idle subs ms) else idle subs ms
idle subs (event_sub r ∷ ms) = idle (EventStream.receive {E = ℕ} subs (event_sub r)).0 ms
idle subs (event_unsub r ∷ ms) = idle (EventStream.receive {E = ℕ} subs (event_unsub r)).0 ms

-- The pills that a watcher sends.
abbrev pub pills : List PriceEffect → ℕ
pills [] = 0
pills (poisoned pid ∷ effects) = suc (pills effects)
pills (sent_update pid ticker now price ∷ effects) = pills effects

pills-append : (xs ys : List PriceEffect) → pills (xs ++ ys) ≡ pills xs + pills ys
pills-append [] ys = omega arith
pills-append (poisoned pid ∷ xs) ys = omega (arith, pills-append xs ys)
pills-append (sent_update pid ticker now price ∷ xs) ys = pills-append xs ys

pills-send_updates :
    (ticker : String) (now price : ℕ) (pids : List Pid)
    → pills (send_updates ticker now price pids) ≡ 0
unfolding send_updates
pills-send_updates ticker now price [] = refl
pills-send_updates ticker now price (pid ∷ pids) = pills-send_updates ticker now price pids

-- The ticks without a subscriber that a watcher survives.
abbrev pub spare : PriceWatcher → ℕ
spare w = if w.ticking then 1 else 0

-- What becomes of a watcher that survives the messages.
pub record Survives (w : PriceWatcher) (ms : List (Msg ℕ)) (v : PriceWatcher)
    (effects : List PriceEffect) : Type 0 where
  pub same_subs : v.subscribers ≡ EventStream.receive_all w.subscribers ms
  pub price : v.last_price ≡ w.last_price + 2 * triggers ms
  pub spared : spare v + idle w.subscribers ms ≡ spare w
  pub pilled : pills effects ≡ idle w.subscribers ms

abbrev pub Lives : PriceWatcher → List (Msg ℕ) → Type 0
Lives w ms =
    (v : PriceWatcher) × (effects : List PriceEffect) × (receive_all w (map from_stream ms)
      ≡ some (v, effects))
    × Survives w ms v effects

pub idle-cons :
    (subs : Subs) (m : Msg ℕ) (ms : List (Msg ℕ))
    → idle subs (m ∷ ms) ≡ idle subs (m ∷ []) + idle (EventStream.receive subs m).0 ms
unfolding idle EventStream.receive
idle-cons subs (event_sub r) ms = omega arith
idle-cons subs (event_unsub r) ms = omega arith
idle-cons subs (event now) ms = ground arith

triggers-cons :
    (m : Msg ℕ) (ms : List (Msg ℕ)) → triggers (m ∷ ms) ≡ triggers (m ∷ []) + triggers ms
triggers-cons (event_sub r) ms = omega arith
triggers-cons (event_unsub r) ms = omega arith
triggers-cons (event now) ms = omega arith

pub Survives-cons :
    (w v u : PriceWatcher) (m : Msg ℕ) (ms : List (Msg ℕ)) (effects later : List PriceEffect)
    → Survives w (m ∷ []) v effects
    → Survives v ms u later
    → Survives w (m ∷ ms) u (effects ++ later)
unfolding EventStream.receive_all
Survives-cons w v u m ms effects later s t =
    let next = ap (λ subs. idle subs ms) s.same_subs in
    record {
      same_subs = t.same_subs ∙ ap (λ subs. EventStream.receive_all subs ms) s.same_subs;
      price = omega (arith, s.price, t.price, triggers-cons m ms);
      spared = omega (arith, s.spared, t.spared, next, idle-cons w.subscribers m ms);
      pilled = omega (
        arith,
        pills-append effects later,
        s.pilled,
        t.pilled,
        next,
        idle-cons w.subscribers m ms,
      );
    }

pub trigger-Survives :
    (now : ℕ) (w v : PriceWatcher) (effects : List PriceEffect)
    → v.subscribers ≡ w.subscribers
    → v.last_price ≡ w.last_price
    → spare v + idle w.subscribers (event now ∷ []) ≡ spare w
    → pills effects ≡ idle w.subscribers (event now ∷ [])
    → Survives w (event now ∷ []) (refresh_price now v).0 (effects ++ (refresh_price now v).1)
unfolding refresh_price EventStream.receive_all EventStream.receive
trigger-Survives now w v effects same price spared pilled = record {
  same_subs = same;
  price = omega (arith, price);
  spared = spared;
  pilled =
      pills-append effects
        (send_updates v.options.ticker now (v.last_price + 2) (values v.subscribers))
      ∙ omega (
        arith,
        pilled,
        pills-send_updates v.options.ticker now (v.last_price + 2) (values v.subscribers),
      );
}
