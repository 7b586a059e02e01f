-- ===== src/Examples/Books.antt =====
-- The order book at concrete inputs.
use live_trading_engine.Common.{◌≡◌, refl, some, arith, true}
use live_trading_engine.Common.Int.{pos}
use live_trading_engine.Common.Double.{Int-IsIeee, int_double}
use live_trading_engine.Order.{sell}
use live_trading_engine.OrderBook.{add_order, get_sell_orders, get_best_ask}
use live_trading_engine.OrderBook.Books.{
  IsBook, IsBest, prices, add_order-IsBook, add_order_lem, best-IsBest,
}
use live_trading_engine.Examples.Scene.{market_store, market_book}

pub market_book-IsBook : IsBook market_store market_book
market_book-IsBook = record { bids = tt; asks = ground arith }

add_order-IsBook_example :
    IsBook
      (add_order market_store market_book (some 2)).2
      (add_order market_store market_book (some 2)).1
add_order-IsBook_example =
    add_order-IsBook Int-IsIeee market_store market_book 2 refl market_book-IsBook

add_order_lem_example : (add_order market_store market_book (some 2)).0 ≡ true
add_order_lem_example =
    (add_order_lem Int-IsIeee market_store market_book 2 refl refl market_book-IsBook).0

best-IsBest_example :
    IsBest sell (prices market_store) (get_best_ask market_book) (get_sell_orders market_book)
best-IsBest_example = best-IsBest Int-IsIeee market_store market_book sell market_book-IsBook

ask_is_100 : get_best_ask market_book ≡ pos 100
unfolding get_best_ask
ask_is_100 = refl
