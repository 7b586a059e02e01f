-- ===== src/Examples/Scene.antt =====
-- A small market: two resting sell orders, at 100 and at 101, and orders that come in.
use live_trading_engine.Common.{ℕ, [], ◌∷◌, codes, if◌then◌else◌, ◌==◌, none}
use live_trading_engine.Common.Int.{ℤ, pos}
use live_trading_engine.Common.Double.{int_double}
use live_trading_engine.Order.{Order, OrderType, OrderSide, limit, market, buy, sell, pending}
use live_trading_engine.Order.Store.{Store}
use live_trading_engine.OrderBook.{OrderBook}
use live_trading_engine.Matching.{Engine}

abbrev pub order : ℕ → OrderType → OrderSide → ℕ → ℕ → Order ℤ
order id type side quantity price = record {
  id = id ∷ [];
  user_id = id ∷ id ∷ [];
  symbol = codes "AAPL";
  type = type;
  side = side;
  quantity = pos quantity;
  price = pos price;
  filled_quantity = pos 0;
  status = pending;
}

-- 0 and 1 rest in the book; 2 is a limit order to buy 7 at 101, 3 and 4 are market orders to buy.
abbrev pub market_store : Store ℤ
market_store = record {
  cell = λ r.
      if r == 0
      then order 0 limit sell 5 100
      else if r == 1
      then order 1 limit sell 5 101
      else if r == 2
      then order 2 limit buy 7 101
      else if r == 3
      then order 3 market buy 7 0
      else order 4 market buy 2 0;
  next = 5;
}

abbrev pub market_book : OrderBook ℤ
market_book = record {
  symbol = codes "AAPL";
  buy_orders = [];
  sell_orders = (pos 100, 0 ∷ []) ∷ (pos 101, 1 ∷ []) ∷ [];
}

abbrev pub market_engine : Engine ℤ ℕ
market_engine = record {
  trade_callback = none;
  client = 0;
  total_trades = 0;
  total_volume = pos 0;
  next_trade_id = 1;
  orderbooks = [];
  users = [];
}
