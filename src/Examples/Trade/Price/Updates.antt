-- ===== src/Examples/Trade/Price/Updates.antt =====
-- The life of a watcher of prices of examples/trade-engine between its subscribers and its timer.
use hollywood.Base.{
  ltb, ℕ, ◌*◌, ◌≤◌, ◌<◌, ◌≡◌, refl, ap, ◌∙◌, ◌⊎◌, inl, inr, nat_beq, nat_eq, true, false, none,
  some, List, [], ◌∷◌, ◌++◌, map, lookup, arith, Bool-cases,
}
use hollywood.Pid.{Pid}
use hollywood.EventStream.{Ref, Subs, Msg, event_sub, event_unsub, event}
use hollywood.EventStream
use hollywood.EventStream.Subscribers.{subscribed, receive-subscribed}
use hollywood.Examples.Trade.{PriceOptions}
use hollywood.Examples.Trade.Price.{
  PriceWatcher, started, PriceEffect, poisoned, new_price_actor, kill, refresh_price,
  no_subscribers, refresh, receive, receive_all,
}
use hollywood.Examples.Trade.Price.Ticks.{
  from_stream, triggers, idle, idle-cons, pills, spare, Survives, Survives-cons, trigger-Survives,
  Lives,
}

kill_lem :
    (w : PriceWatcher) (pid : Pid)
    → w.pid ≡ some pid
    → w.ticking ≡ true
    → kill w ≡ some (record w { ticking = false }, poisoned pid ∷ [])
unfolding kill
kill_lem w pid at on = ground (arith, at, on)

-- A message that a watcher survives.
Steps : PriceWatcher → Msg ℕ → Pid → Type 0
Steps w m pid =
    (v : PriceWatcher) × (effects : List PriceEffect) × (receive w (from_stream m)
      ≡ some (v, effects))
    × Survives w (m ∷ []) v effects
    × (v.pid ≡ some pid)

receive-Steps :
    (m : Msg ℕ) (w : PriceWatcher) (pid : Pid)
    → w.pid ≡ some pid
    → idle w.subscribers (m ∷ []) ≤ spare w
    → Steps w m pid
unfolding Steps receive EventStream.receive_all EventStream.receive idle
receive-Steps (event_sub r) w pid at h = (
  _,
  [],
  refl,
  record { same_subs = refl; price = omega arith; spared = omega arith; pilled = refl },
  at,
)
receive-Steps (event_unsub r) w pid at h = (
  _,
  [],
  refl,
  record { same_subs = refl; price = omega arith; spared = omega arith; pilled = refl },
  at,
)
receive-Steps (event now) w pid at h = elim (Bool-cases (no_subscribers w.subscribers)) [
  | inl empty ↦
      let on : w.ticking ≡ true = ground (arith, h, empty) in
      let v : PriceWatcher = record w { ticking = false } in
      (
        (refresh_price now v).0,
        poisoned pid ∷ (refresh_price now v).1,
        rw (refresh, empty, kill_lem w pid at on) refl,
        trigger-Survives now w v (poisoned pid ∷ []) refl refl (ground (arith, on, empty))
            (ground (arith, empty)),
        at,
      )
  | inr busy ↦ (
    (refresh_price now w).0,
    (refresh_price now w).1,
    rw (refresh, busy) refl,
    trigger-Survives now w w [] refl refl (ground (arith, busy)) (ground (arith, busy)),
    at,
  )
]

receive_all-Lives :
    (ms : List (Msg ℕ)) (w : PriceWatcher) (pid : Pid)
    → w.pid ≡ some pid
    → idle w.subscribers ms ≤ spare w
    → Lives w ms
unfolding Steps receive_all EventStream.receive_all idle
receive_all-Lives [] w pid at h = (
  w,
  [],
  refl,
  record { same_subs = refl; price = omega arith; spared = omega arith; pilled = refl },
)
receive_all-Lives (m ∷ ms) w pid at h =
    let (v, effects, e, s, at') =
      receive-Steps m w pid at (omega (arith, h, idle-cons w.subscribers m ms)) in
    let next = ap (λ subs. idle subs ms) s.same_subs in
    let (u, later, e', t) =
      receive_all-Lives ms v pid at'
        (omega (arith, h, s.spared, next, idle-cons w.subscribers m ms)) in
    (u, effects ++ later, rw (receive_all, e, e') refl, Survives-cons w v u m ms effects later s t)

receive-dies :
    (m : Msg ℕ) (w : PriceWatcher) (pid : Pid)
    → w.pid ≡ some pid
    → spare w < idle w.subscribers (m ∷ [])
    → receive w (from_stream m) ≡ none
unfolding receive refresh kill idle
receive-dies (event_sub r) w pid at h = absurd (omega arith)
receive-dies (event_unsub r) w pid at h = absurd (omega arith)
receive-dies (event now) w pid at h = ground (arith, at, h)

receive_all-dies :
    (ms : List (Msg ℕ)) (w : PriceWatcher) (pid : Pid)
    → w.pid ≡ some pid
    → spare w < idle w.subscribers ms
    → receive_all w (map from_stream ms) ≡ none
unfolding Steps receive_all idle EventStream.receive_all
receive_all-dies [] w pid at h = absurd (omega arith)
receive_all-dies (m ∷ ms) w pid at h =
    elim (Bool-cases (ltb (spare w) (idle w.subscribers (m ∷ [])))) [
      | inl now ↦ rw (receive_all, receive-dies m w pid at (ground (arith, now))) refl
      | inr later ↦
          let (v, effects, e, s, at') = receive-Steps m w pid at (ground (arith, later)) in
          let next = ap (λ subs. idle subs ms) s.same_subs in
          rw
            (
              receive_all,
              e,
              receive_all-dies ms v pid at'
                  (omega (arith, h, s.spared, next, idle-cons w.subscribers m ms)),
            )
            refl
    ]

-- A watcher is spawned and started, and then subscriptions, their ends and ticks of its timer come in
-- any order. With at most one tick that finds no subscriber it survives: its price is twice the number
-- of the ticks, its subscribers are exactly the pointers whose last message subscribed them, and it has
-- sent itself a pill, and its timer has been stopped, exactly if there was such a tick. With more than
-- one it panics, on the close of a closed channel.
pub receive_all-ticks :
    (options : PriceOptions) (pid : Pid) (ms : List (Msg ℕ))
    → let life = receive_all (new_price_actor options) (started pid ∷ map from_stream ms) in
      ((idle [] ms ≤ 1)
        × (w : PriceWatcher) × (effects : List PriceEffect) × (life ≡ some (w, effects))
        × (w.last_price ≡ 2 * triggers ms)
        × ((k : ℕ) → lookup k w.subscribers ≡ subscribed (λ j. none) ms k)
        × (pills effects ≡ idle [] ms)
        × (w.ticking ≡ nat_beq (idle [] ms) 0))
      ⊎ ((1 < idle [] ms) × (life ≡ none))
unfolding new_price_actor receive_all receive
receive_all-ticks options pid ms =
    let w : PriceWatcher = record (new_price_actor options) { pid = some pid; ticking = true } in
    elim (Bool-cases (ltb 1 (idle [] ms))) [
      | inl many ↦ inr (
        ground (arith, many),
        rw (receive_all, receive, receive_all-dies ms w pid refl (ground (arith, many))) refl,
      )
      | inr few ↦
          let (v, effects, e, s) = receive_all-Lives ms w pid refl (ground (arith, few)) in
          let (_, _, subs) = receive-subscribed ms 0 in
          inl (
            ground (arith, few),
            v,
            effects,
            rw (receive_all, receive, e) refl,
            omega (arith, s.price),
            λ k. ap (λ t. lookup k t) s.same_subs ∙ subs k,
            s.pilled,
            ground (arith, s.spared),
          )
    ]
