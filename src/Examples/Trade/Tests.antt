-- ===== src/Examples/Trade/Tests.antt =====
-- Runs of examples/trade-engine.
use hollywood.Base.{
  ℕ, ◌*◌, ◌≤◌, ◌<◌, ◌≡◌, ◌⊎◌, refl, string_eq, nat_eq, nat_beq, false, none, some, List, [], ◌∷◌,
  lookup, insert, delete, map,
}
use hollywood.Pid.{Pid, new_pid}
use hollywood.Routing.{user, Engine}
use hollywood.Context.{new_context, spawn}
use hollywood.EventStream.{Ref, Msg, event_sub, event_unsub, event}
use hollywood.EventStream.Subscribers.{subscribed}
use hollywood.Examples.Trade.{
  TradeOrder, TradeMsg, info_response, unsubscribe, trigger, PriceOptions, to_ticker, ticker_of,
  Request, orders, cancels, spawn_price_watcher, ensure_price_watcher, cancel,
  handle_trade_info_request, receive_all,
}
use hollywood.Examples.Trade.Slashes.{has_slash}
use hollywood.Examples.Trade.Lookups.{receive_all-unreached}
use hollywood.Examples.Trade.Price
use hollywood.Examples.Trade.Price.{
  PriceWatcher, PriceEffect, new_price_actor, sent_update, poisoned,
}
use hollywood.Examples.Trade.Price.Ticks.{from_stream, triggers, idle, pills}
use hollywood.Examples.Trade.Price.Updates.{receive_all-ticks}
use hollywood.Examples.Trade.Executor
use hollywood.Examples.Trade.Executor.{TradeExecutor, new_executor_actor}

abbrev order : TradeOrder
order = record {
  trade_id = "7f";
  token0 = "token0";
  token1 = "token1";
  chain = "ETH";
  wallet = "wallet6";
  private_key = "privateKey";
  expires = 90;
}

abbrev engine : Engine
engine = record { address = "local"; has_remote = false; event_stream = none; registry = [] }

-- Two orders for one pair of tokens, and the end of one.
abbrev requests : List Request
requests = orders order ("1", "2") (1, 2) ∷ orders order ("3", "4") (3, 4) ∷ cancels "7f" ∷ []

no_slash : has_slash (ticker_of order) ≡ false
unfolding has_slash to_ticker
no_slash = refl

no_slash_in_id : has_slash "7f" ≡ false
unfolding has_slash
no_slash_in_id = refl

receive_all-unreached_example :
    let (_, f, pid) = spawn {M = TradeMsg} 1 engine 0 "trade-engine" [] "55" 0 in
    let (g, c) = receive_all 1 1 2 (user trigger) f (new_context pid (user trigger)) requests in
    (cancel 1 1 2 (user trigger) g c "7f" ≡ some [])
    × (handle_trade_info_request 1 1 2 (user trigger) g c "7f" "8" 8 none ≡ some [])
    × (ensure_price_watcher 1 1 2 (user trigger) g c order "8" 8
        ≡ spawn_price_watcher 1 1 2 (user trigger) g c (ticker_of order) "8" 8)
receive_all-unreached_example =
    receive_all-unreached 1 1 2 (user trigger) engine 0 "55" 0 requests "7f" order "8" 8 none
      no_slash_in_id no_slash

abbrev options : PriceOptions
options = record { ticker = "a-b-c"; token0 = "a"; token1 = "b"; chain = "c" }

abbrev watcher_pid : Pid
watcher_pid = new_pid "local" "trade-engine/55/a-b-c/1"

abbrev subscriber : Ref
subscriber = record { pointer = 4; pid = new_pid "local" "trade-engine/55/7f/2" }

abbrev ticks : List (Msg ℕ)
ticks = event_sub subscriber ∷ event 10 ∷ event_unsub subscriber ∷ event 20 ∷ []

receive_all-ticks_example :
    let life =
      Price.receive_all
        (new_price_actor options)
        (Price.started watcher_pid ∷ map from_stream ticks) in
    ((idle [] ticks ≤ 1)
      × (w : PriceWatcher) × (effects : List PriceEffect) × (life ≡ some (w, effects))
      × (w.last_price ≡ 2 * triggers ticks)
      × ((k : ℕ) → lookup k w.subscribers ≡ subscribed (λ j. none) ticks k)
      × (pills effects ≡ idle [] ticks)
      × (w.ticking ≡ nat_beq (idle [] ticks) 0))
    ⊎ ((1 < idle [] ticks) × (life ≡ none))
receive_all-ticks_example = receive_all-ticks options watcher_pid ticks

ticks-watcher :
    Price.receive_all (new_price_actor options) (Price.started watcher_pid ∷ map from_stream ticks)
    ≡ some (
      record {
        pid = some watcher_pid;
        ticking = false;
        options = options;
        last_price = 4;
        updated_at = 20;
        subscribers = [];
      },
      sent_update subscriber.pid "a-b-c" 10 2 ∷ poisoned watcher_pid ∷ [],
    )
unfolding Price.receive_all new_price_actor insert delete
ticks-watcher = refl

abbrev executor : TradeExecutor
executor =
    record (new_executor_actor
      (record { price_watcher_pid = watcher_pid; ticker = "a-b-c"; order = order })) {
        last_price = 8;
        pid = some subscriber;
      }

-- An update in time, one after the order has expired, and the end of the order.
update_in_time :
    Executor.receive executor (Executor.price_update 90 10)
    ≡ some (record executor { last_price = 10 }, [])
unfolding Executor.receive new_executor_actor
update_in_time = refl

update_expired :
    Executor.receive executor (Executor.price_update 91 10)
    ≡ some (
      executor,
      Executor.sent watcher_pid (unsubscribe subscriber) ∷ Executor.poisoned subscriber.pid ∷ [],
    )
unfolding Executor.receive new_executor_actor
update_expired = refl

info :
    Executor.receive executor Executor.trade_info
    ≡ some (executor, Executor.responded (info_response 8) ∷ [])
unfolding Executor.receive new_executor_actor
info = refl
