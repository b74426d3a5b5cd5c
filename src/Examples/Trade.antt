-- ===== src/Examples/Trade.antt =====
-- examples/trade-engine: the actor that spawns a watcher of prices for each pair of tokens and an
-- executor for each order, over the context of a receiver. A point in time is a number, and 0 the
-- zero time; prices are whole numbers, which the float64 of the program holds exactly.
pub mod Slashes
pub mod Lookups
pub mod Price
pub mod Executor
mod Tests
use hollywood.Base.{ℕ, String, string_eq, Option, none, some, List, [], ◌∷◌}
use hollywood.Pid.{Pid, concat}
use hollywood.Routing.{Letter, user, Engine, Outcome}
use hollywood.Context.{Context, spawn_child, child_of, context_send, respond}
use hollywood.Requests.{both, request}
use hollywood.EventStream.{Ref}

-- `TradeOrderRequest`
pub record TradeOrder : Type 0 where
  pub trade_id : String
  pub token0 : String
  pub token1 : String
  pub chain : String
  pub wallet : String
  pub private_key : String
  pub expires : ℕ

-- The messages of types.go; the two numbers of an answer that never change are left out.
pub data TradeMsg : Type 0 where
  trade_order : TradeOrder → TradeMsg
  cancel_order : String → TradeMsg
  trade_info : String → TradeMsg
  info_response : ℕ → TradeMsg
  subscribe : Ref → TradeMsg
  unsubscribe : Ref → TradeMsg
  trigger : TradeMsg
  price_update : String → ℕ → ℕ → TradeMsg

pub record PriceOptions : Type 0 where
  pub ticker : String
  pub token0 : String
  pub token1 : String
  pub chain : String

pub record ExecutorOptions : Type 0 where
  pub price_watcher_pid : Pid
  pub ticker : String
  pub order : TradeOrder

-- `toTicker`
unfoldable pub to_ticker : String → String → String → String
to_ticker token0 token1 chain = concat token0 (concat "-" (concat token1 (concat "-" chain)))

abbrev pub ticker_of : TradeOrder → String
ticker_of order = to_ticker order.token0 order.token1 order.chain

-- A message of `Receive`, with what its handling draws and gets.
pub data Request : Type 0 where
  orders : TradeOrder → String × String → ℕ × ℕ → Request
  cancels : String → Request
  asks : String → String → ℕ → Option (Letter TradeMsg) → Request
  other : Request

-- The producers have numbers, and `first` is the first message of a new process.
module _ (fuel price executor : ℕ) (first : Letter TradeMsg) where
  -- The spawn of a watcher, with the random text and the handle of its process.
  unfoldable pub spawn_price_watcher :
      Engine
      → Context TradeMsg
      → String
      → String
      → ℕ
      → Outcome TradeMsg × Engine × Context TradeMsg × Pid
  spawn_price_watcher e c ticker drawn handle =
      let (outcome, f, d, child) = spawn_child fuel e c price ticker [] drawn handle first in
      (outcome, f, d, child.pid)

  -- `ensurePriceWatcher`
  unfoldable pub ensure_price_watcher :
      Engine
      → Context TradeMsg
      → TradeOrder
      → String
      → ℕ
      → Outcome TradeMsg × Engine × Context TradeMsg × Pid
  unfolding spawn_price_watcher
  ensure_price_watcher e c order drawn handle =
      elim (child_of c (concat "trade-engine/" (ticker_of order))) [
        | some pid ↦ (some [], e, c, pid)
        | none ↦ spawn_price_watcher e c (ticker_of order) drawn handle
      ]

  -- `spawnExecutor`
  unfoldable pub spawn_executor :
      Engine
      → Context TradeMsg
      → TradeOrder
      → String × String
      → ℕ × ℕ
      → Outcome TradeMsg × Engine × Context TradeMsg × ExecutorOptions
  unfolding ensure_price_watcher
  spawn_executor e c order (drawn, drawn') (handle, handle') =
      let (outcome, f, d, pid) = ensure_price_watcher e c order drawn handle in
      let (outcome', g, d', child) =
        spawn_child fuel f d executor order.trade_id [] drawn' handle' first in
      (
        both outcome outcome',
        g,
        d',
        record { price_watcher_pid = pid; ticker = ticker_of order; order = order },
      )

  -- `cancelOrder`
  unfoldable pub cancel : Engine → Context TradeMsg → String → Outcome TradeMsg
  cancel e c id = elim (child_of c (concat "trade-engine/" id)) [
    | none ↦ some []
    | some pid ↦ context_send fuel e c (some pid) (user (cancel_order ""))
  ]

  -- What `handleTradeInfoRequest` does with the result of its request, which is `none` for an error.
  abbrev pub answer_info : Engine → Context TradeMsg → Option (Letter TradeMsg) → Outcome TradeMsg
  answer_info e c (some (user (info_response price))) =
      respond fuel e c (user (info_response price))
  answer_info e c _ = some []

  -- `handleTradeInfoRequest`, with the random text and the handle of the response and its result.
  unfoldable pub handle_trade_info_request :
      Engine → Context TradeMsg → String → String → ℕ → Option (Letter TradeMsg) → Outcome TradeMsg
  handle_trade_info_request e c id drawn handle result =
      elim (child_of c (concat "trade-engine/" id)) [
        | none ↦ some []
        | some pid ↦
            let (outcome, f, r) = request fuel e (some pid) (user (trade_info "")) drawn handle in
            both outcome (answer_info f c result)
      ]

  -- `Receive` of the trade engine; its start and stop are log lines.
  unfoldable pub receive :
      Engine → Context TradeMsg → Request → Outcome TradeMsg × Engine × Context TradeMsg
  unfolding spawn_executor cancel handle_trade_info_request
  receive e c (orders order drawn handles) =
      let (outcome, f, d, _) = spawn_executor e c order drawn handles in (outcome, f, d)
  receive e c (cancels id) = (cancel e c id, e, c)
  receive e c (asks id drawn handle result) =
      (handle_trade_info_request e c id drawn handle result, e, c)
  receive e c other = (some [], e, c)

  -- What the engine and its context are after some messages.
  unfoldable pub receive_all : Engine → Context TradeMsg → List Request → Engine × Context TradeMsg
  unfolding receive
  receive_all e c [] = (e, c)
  receive_all e c (r ∷ rs) = let (_, f, d) = receive e c r in receive_all f d rs
