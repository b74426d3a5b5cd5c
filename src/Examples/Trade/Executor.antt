-- ===== src/Examples/Trade/Executor.antt =====
-- examples/trade-engine/actors/executor: the actor of one order. `none` is the panic on a nil engine.
use hollywood.Base.{
  ℕ, Bool, not, ◌&&◌, String, nat_beq, ltb, Option, none, some, List, [], ◌∷◌, if◌then◌else◌,
}
use hollywood.Pid.{Pid}
use hollywood.EventStream.{Ref}
use hollywood.Examples.Trade.{TradeMsg, info_response, subscribe, unsubscribe, ExecutorOptions}

-- `tradeExecutorActor`; its engine is there exactly with its process id, a pointer.
pub record TradeExecutor : Type 0 where
  pub pid : Option Ref
  pub options : ExecutorOptions
  pub status : String
  pub last_price : ℕ

-- The messages that `Receive` tells apart; an update comes with the time at which it is handled.
pub data ExecutorMsg : Type 0 where
  started : Ref → ExecutorMsg
  stopped : ExecutorMsg
  price_update : ℕ → ℕ → ExecutorMsg
  trade_info : ExecutorMsg
  cancel_order : ExecutorMsg

pub data ExecutorEffect : Type 0 where
  sent : Pid → TradeMsg → ExecutorEffect
  responded : TradeMsg → ExecutorEffect
  poisoned : Pid → ExecutorEffect

-- What `NewExecutorActor` makes.
unfoldable pub new_executor_actor : ExecutorOptions → TradeExecutor
new_executor_actor options = record {
  pid = none;
  options = options;
  status = "active";
  last_price = 0;
}

-- `Finished`
unfoldable pub finished : TradeExecutor → Option (List ExecutorEffect)
finished te = elim te.pid [
  | none ↦ none
  | some ref ↦ some (sent te.options.price_watcher_pid (unsubscribe ref) ∷ poisoned ref.pid ∷ [])
]

abbrev pub with_state :
    TradeExecutor → Option (List ExecutorEffect) → Option (TradeExecutor × List ExecutorEffect)
with_state te none = none
with_state te (some effects) = some (te, effects)

-- The order has a time at which it expires, and it is past that time.
abbrev pub is_expired : ℕ → ℕ → Bool
is_expired expires now = not (nat_beq expires 0) && ltb expires now

-- `processUpdate`
unfoldable pub process_update : TradeExecutor → ℕ → ℕ → Option (TradeExecutor × List ExecutorEffect)
unfolding finished
process_update te now price =
    if is_expired te.options.order.expires now
    then with_state te (finished te)
    else some (record te { last_price = price }, [])

-- `Receive`
unfoldable pub receive : TradeExecutor → ExecutorMsg → Option (TradeExecutor × List ExecutorEffect)
unfolding process_update
receive te (started ref) =
    some (record te { pid = some ref }, sent te.options.price_watcher_pid (subscribe ref) ∷ [])
receive te stopped = some (te, [])
receive te (price_update now price) = process_update te now price
receive te trade_info = some (te, responded (info_response te.last_price) ∷ [])
receive te cancel_order = with_state (record te { status = "cancelled" }) (finished te)
