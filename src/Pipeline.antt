-- ===== src/Pipeline.antt =====
-- apps/trading_engine/main.cpp: the class TradingEngine, and the processing of queued orders.
-- `S` is the state of the client whose callback the matching engine calls for each trade.
pub mod Decode
pub mod Sane
pub mod Keeps
pub mod Process
pub mod Effects
pub mod Encoded
pub mod Trades
pub mod Lifecycle
use live_trading_engine.Common.{
  ℕ, ◌≡◌, Bool, true, false, not, Option, none, some, List, [], ◌∷◌, ◌++◌, if◌then◌else◌, Text,
  codes, decimal, length,
}
use live_trading_engine.Common.Double.{Double}
use live_trading_engine.Common.Json.{JsonLibrary}
use live_trading_engine.Common.Result.{Failure, bad_json, invalid_argument, Result, ok, err}
use live_trading_engine.Order.{Order}
use live_trading_engine.Order.Store.{Store, alloc}
use live_trading_engine.OrderBook.{OrderBook, new_book, add_order}
use live_trading_engine.Matching.Loop.{Trade}
use live_trading_engine.Matching.{Engine, get_order_book, add_order_book, match_order}
use live_trading_engine.Validation.{OrderValidator, validate}
pub use live_trading_engine.Logging.Lines.{LogLevel, debug, info, warning, error}
use Decode.{OrderRequest, read_request, to_order}

pub record TradingEngine {ℓ κ} (W : Type ℓ) (S : Type κ) : Type (ℓ ⊔ κ) where
  pub validator : OrderValidator W
  pub matching_engine : Engine W S
  -- the heap of the orders
  pub store : Store W
  pub running : Bool
  pub trading_active : Bool
  pub admin_password : Text
  pub admin_enabled : Bool
  -- what went to the application's logger
  pub app_log : List (LogLevel × Text)

module _ {ℓ κ} {W : Type ℓ} {S : Type κ} where
  unfoldable pub log : LogLevel → Text → TradingEngine W S → TradingEngine W S
  log level message s = record s { app_log = s.app_log ++ ((level, message) ∷ []) }

  unfoldable pub log_failure : Failure → TradingEngine W S → TradingEngine W S
  log_failure (bad_json what) s = log error (codes "Failed to parse order from queue: " ++ what) s
  log_failure (invalid_argument what) s =
      log error (codes "Invalid data in order from queue: " ++ what) s

  -- The book of the symbol, registered first if there is none.
  unfoldable pub find_or_add_book : Engine W S → Text → OrderBook W × Engine W S
  find_or_add_book e symbol = elim (get_order_book e symbol) [
    | none ↦ (new_book symbol, add_order_book e symbol (new_book symbol))
    | some b ↦ (b, e)
  ]

  unfoldable pub log_trades : Text → List (Trade W) → TradingEngine W S → TradingEngine W S
  log_trades id [] s = s
  log_trades id (t ∷ ts) s =
      log info
        (codes "Order "
          ++ (id ++ (codes " generated " ++ (decimal (length (t ∷ ts)) ++ codes " trades"))))
        s

module _ {ℓ κ} {W : Type ℓ} {S : Type κ} ⦃d : Double W⦄ (clock : ℕ → ℕ) where
  -- The order is allocated, added to its book and matched. The map of books holds pointers, so that
  -- what changes in the book is written back under its symbol.
  unfoldable pub submit_order : TradingEngine W S → Order W → TradingEngine W S
  submit_order s order =
      let (b, e) = find_or_add_book s.matching_engine order.symbol in
      let order_ptr = s.store.next in
      let (taken, b1, st1) = add_order (alloc s.store order) b (some order_ptr) in
      let (trades, e2, st2, b2) = match_order clock e st1 b1 order_ptr in
      let refused = record s { matching_engine = add_order_book e order.symbol b1; store = st1 } in
      let matched = record s { matching_engine = add_order_book e2 order.symbol b2; store = st2 } in
      if not taken
      then log error (codes "Failed to add order " ++ (order.id ++ codes " to order book")) refused
      else log_trades order.id trades matched

  unfoldable pub accept_order : TradingEngine W S → Order W → TradingEngine W S
  accept_order s order =
      let validation_result = validate s.validator order in
      if not validation_result.is_valid
      then log error
          (codes "Invalid order from queue rejected: " ++ validation_result.error_message) s
      else submit_order s order

  unfoldable pub convert_request :
      JsonLibrary W → TradingEngine W S → OrderRequest W → TradingEngine W S
  convert_request lib s r = elim (to_order lib r) [
    | ok order ↦ accept_order s order
    | err f ↦ log_failure f s
  ]

  unfoldable pub process_request : JsonLibrary W → TradingEngine W S → Text → TradingEngine W S
  process_request lib s value = elim (read_request lib value) [
    | ok r ↦ convert_request lib (log info (codes "Processing order from queue: " ++ r.id) s) r
    | err f ↦ log_failure f s
  ]

  -- The handler of a message of the topic order-requests, from its value.
  unfoldable pub process_order_from_queue :
      JsonLibrary W → TradingEngine W S → Text → TradingEngine W S
  process_order_from_queue lib s value =
      if not s.trading_active
      then log info (codes "Skipping order processing - trading suspended") s
      else process_request lib s value

  -- The messages of the topic, one after the other.
  unfoldable pub process_all : JsonLibrary W → TradingEngine W S → List Text → TradingEngine W S
  process_all lib s [] = s
  process_all lib s (m ∷ ms) = process_all lib (process_order_from_queue lib s m) ms
