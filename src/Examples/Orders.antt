-- ===== src/Examples/Orders.antt =====
-- Messages, validation and executions at concrete inputs.
use live_trading_engine.Common.{
  has_text, IsDistinct, ℕ, ◌≡◌, refl, ◌↔◌, inl, inr, [], ◌∷◌, arith, true, false, none, codes,
  if◌then◌else◌, text_eq,
}
use live_trading_engine.Common.Dict.{lookup}
use live_trading_engine.Common.Int.{ℤ, pos}
use live_trading_engine.Common.Double.{Int-IsIeee, int_double}
use live_trading_engine.Common.Json.{Json, JsonLibrary, obj, fields, text, int, member}
use live_trading_engine.Common.Result.{ok, err, bad_json}
use live_trading_engine.Order.{
  Order, limit, sell, buy, pending, set_status, make_order, order_type_to_string,
  order_side_to_string,
}
use live_trading_engine.Order.Store.{Store}
use live_trading_engine.Validation.{
  OrderValidator, validate, is_valid_symbol, remove_valid_symbol, without, is_empty,
}
use live_trading_engine.Validation.Rules.{IsAcceptable, validate-error}
use live_trading_engine.Validation.Symbols.{symbols_lem}
use live_trading_engine.Pipeline.{
  TradingEngine, info, log, process_all, process_order_from_queue, submit_order,
}
use live_trading_engine.Pipeline.Process.{IsSane, process_all-IsSane}
use live_trading_engine.Pipeline.Encoded.{IsEncoding, process_order_from_queue_lem}
use live_trading_engine.Pipeline.Effects.{IsUntouched, refused-IsUntouched, submitted_order_rests}
use live_trading_engine.Executor.{Executor}
use live_trading_engine.Validation.{none as no_error}
use live_trading_engine.Examples.Scene.{order, market_engine}

abbrev bounds : OrderValidator ℤ
bounds = record {
  valid_symbols = codes "AAPL" ∷ [];
  min_quantity = pos 1;
  max_quantity = pos 1000;
  min_price = pos 10;
  max_price = pos 5000;
  market_open = true;
}

abbrev pub json : JsonLibrary ℤ
json = record {
  parse = λ value.
      if is_empty value
      then err (bad_json (codes "empty"))
      else ok (
          obj (
            fields (
              (codes "id", text (codes "1"))
              ∷ (codes "userId", text (codes "ann"))
              ∷ (codes "symbol", text (codes "AAPL"))
              ∷ (codes "type", text (codes "LIMIT"))
              ∷ (codes "side", text (codes "BUY"))
              ∷ (codes "quantity", int 7)
              ∷ (codes "price", int 100)
              ∷ [])));
  dump = λ _. [];
  no_key = λ k. k;
  wrong_type = λ _. [];
}

validate-error_example :
    let v = bounds in
    let o = order 2 limit buy 7 101 in ((validate v o).error ≡ no_error) ↔ IsAcceptable v o
validate-error_example = (validate-error bounds (order 2 limit buy 7 101)).0

bounds-IsDistinct : IsDistinct bounds.valid_symbols
unfolding has_text
bounds-IsDistinct = (refl, tt)

-- Once its only symbol is removed, the validator takes every symbol that is not empty.
symbols_lem_example :
    is_valid_symbol (remove_valid_symbol bounds (codes "AAPL")) (codes "AAPL") ≡ true
unfolding without text_eq
symbols_lem_example = (symbols_lem bounds (codes "AAPL") bounds-IsDistinct).3 (codes "AAPL")

abbrev empty_store : Store ℤ
empty_store = record { cell = λ r. order r limit sell 0 0; next = 0 }

abbrev pub system : TradingEngine ℤ ℕ
system = record {
  validator = bounds;
  matching_engine = market_engine;
  store = empty_store;
  running = true;
  trading_active = true;
  admin_password = codes "secret";
  admin_enabled = true;
  app_log = [];
}

system-IsSane : IsSane system
unfolding lookup
system-IsSane = record {
  heap = λ r h. refl;
  market = λ k b e. cc;
  min_finite = refl;
  max_finite = refl;
}

process_all-IsSane_example :
    IsSane (process_all (λ n. n) json system (codes "a" ∷ [] ∷ codes "b" ∷ []))
process_all-IsSane_example =
    process_all-IsSane Int-IsIeee (λ n. n) json system (codes "a" ∷ [] ∷ codes "b" ∷ [])
      system-IsSane

abbrev incoming : Order ℤ
incoming = record {
  id = codes "1";
  user_id = codes "ann";
  symbol = codes "AAPL";
  type = limit;
  side = buy;
  quantity = pos 7;
  price = pos 100;
  filled_quantity = pos 0;
  status = pending;
}

abbrev incoming_json : Json ℤ
incoming_json = obj (
    fields (
      (codes "id", text (codes "1"))
      ∷ (codes "userId", text (codes "ann"))
      ∷ (codes "symbol", text (codes "AAPL"))
      ∷ (codes "type", text (codes "LIMIT"))
      ∷ (codes "side", text (codes "BUY"))
      ∷ (codes "quantity", int 7)
      ∷ (codes "price", int 100)
      ∷ []))

incoming-IsEncoding : IsEncoding incoming incoming_json
unfolding member text_eq make_order order_type_to_string order_side_to_string
incoming-IsEncoding = record {
  m = _;
  object = refl;
  id = refl;
  user_id = refl;
  symbol = refl;
  type = refl;
  side = refl;
  quantity = (int 7, refl, inr (7, refl, refl));
  price = (int 100, refl, inr (100, refl, refl));
  new = refl;
}

incoming-IsAcceptable : IsAcceptable bounds incoming
incoming-IsAcceptable = (refl, inl refl, (refl, refl), (refl, refl))

process_order_from_queue_lem_example :
    process_order_from_queue (λ n. n) json system (codes "a")
    ≡ submit_order (λ n. n) (log info (codes "Processing order from queue: 1") system) incoming
process_order_from_queue_lem_example =
    (process_order_from_queue_lem (λ n. n) json system (codes "a") incoming incoming_json refl refl
        incoming-IsEncoding).0
      incoming-IsAcceptable

refused-IsUntouched_example :
    IsUntouched
      (record system { trading_active = false })
      (process_order_from_queue
        (λ n. n)
        json
        (record system { trading_active = false })
        (codes "a"))
refused-IsUntouched_example =
    refused-IsUntouched (λ n. n) json (record system { trading_active = false }) (codes "a")
      (λ e o _ _. ground arith)

submitted_order_rests_example : (submit_order (λ n. n) system incoming).store.cell 0 ≡ incoming
unfolding set_status
submitted_order_rests_example =
    (submitted_order_rests (λ n. n) system incoming Int-IsIeee
      (record { price = refl; quantity = refl }) system-IsSane).0

abbrev pub executor : Executor ℤ ℕ
executor = record {
  execution_callback = none;
  total_executions = 0;
  total_executed_volume = pos 0;
  next_execution_id = 1;
  timeout_ms = 5000;
  max_retries = 3;
}
