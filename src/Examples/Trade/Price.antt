-- ===== src/Examples/Trade/Price.antt =====
-- examples/trade-engine/actors/price: the watcher of the prices of one pair of tokens. Its subscribers
-- are a map keyed by pointer, as those of the event stream. `none` is a panic: of a second close of
-- the channel of the timer, or on a nil engine.
pub mod Ticks
pub mod Updates
use hollywood.Base.{
  ℕ, ◌+◌, nat_eq, String, Bool, true, false, Option, none, some, List, [], ◌∷◌, ◌++◌, Map, values,
  insert, delete, if◌then◌else◌,
}
use hollywood.Pid.{Pid}
use hollywood.EventStream.{Ref, Subs}
use hollywood.Examples.Trade.{PriceOptions}

-- `priceWatcherActor`; its engine is there exactly with its process id, and its timer ticks until it
-- is stopped.
pub record PriceWatcher : Type 0 where
  pub pid : Option Pid
  pub ticking : Bool
  pub options : PriceOptions
  pub last_price : ℕ
  pub updated_at : ℕ
  pub subscribers : Subs

-- The messages that `Receive` tells apart; the refresh reads the clock.
pub data PriceMsg : Type 0 where
  started : Pid → PriceMsg
  stopped : PriceMsg
  subscribe : Ref → PriceMsg
  unsubscribe : Ref → PriceMsg
  trigger : ℕ → PriceMsg

pub data PriceEffect : Type 0 where
  sent_update : Pid → String → ℕ → ℕ → PriceEffect
  poisoned : Pid → PriceEffect

-- What `NewPriceActor` makes.
unfoldable pub new_price_actor : PriceOptions → PriceWatcher
new_price_actor options = record {
  pid = none;
  ticking = false;
  options = options;
  last_price = 0;
  updated_at = 0;
  subscribers = [];
}

-- `Kill`; a timer that has not been started has no channel to close.
unfoldable pub kill : PriceWatcher → Option (PriceWatcher × List PriceEffect)
kill w = elim w.pid [
  | none ↦ none
  | some pid ↦ if w.ticking then some (record w { ticking = false }, poisoned pid ∷ []) else none
]

-- The loop over the subscribers.
unfoldable pub send_updates : String → ℕ → ℕ → List Pid → List PriceEffect
send_updates ticker now price [] = []
send_updates ticker now price (pid ∷ pids) =
    sent_update pid ticker now price ∷ send_updates ticker now price pids

-- What `refresh` does after its test.
unfoldable pub refresh_price : ℕ → PriceWatcher → PriceWatcher × List PriceEffect
unfolding send_updates
refresh_price now w = (
  record w { last_price = w.last_price + 2; updated_at = now },
  send_updates w.options.ticker now (w.last_price + 2) (values w.subscribers),
)

abbrev pub no_subscribers : Subs → Bool
no_subscribers [] = true
no_subscribers (x ∷ xs) = false

-- `refresh`, which goes on after `Kill`.
unfoldable pub refresh : ℕ → PriceWatcher → Option (PriceWatcher × List PriceEffect)
unfolding kill refresh_price
refresh now w =
    if no_subscribers w.subscribers
    then elim (kill w) [
      | none ↦ none
      | some (v, effects) ↦ let (u, updates) = refresh_price now v in some (u, effects ++ updates)
    ]
    else some (refresh_price now w)

-- `Receive`
unfoldable pub receive : PriceWatcher → PriceMsg → Option (PriceWatcher × List PriceEffect)
unfolding refresh
receive w (started pid) = some (record w { pid = some pid; ticking = true }, [])
receive w stopped = some (w, [])
receive w (subscribe r) = some (record w { subscribers = insert r.pointer r.pid w.subscribers }, [])
receive w (unsubscribe r) = some (record w { subscribers = delete r.pointer w.subscribers }, [])
receive w (trigger now) = refresh now w

-- Messages one after another.
unfoldable pub receive_all : PriceWatcher → List PriceMsg → Option (PriceWatcher × List PriceEffect)
unfolding receive
receive_all w [] = some (w, [])
receive_all w (msg ∷ msgs) = elim (receive w msg) [
  | none ↦ none
  | some (v, effects) ↦ elim (receive_all v msgs) [
    | none ↦ none
    | some (u, later) ↦ some (u, effects ++ later)
  ]
]
