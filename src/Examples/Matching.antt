-- ===== src/Examples/Matching.antt =====
-- The matching engine at concrete inputs.
use live_trading_engine.Common.{ℕ, ◌≡◌, refl, [], ◌∷◌, arith, false, ◌⊎◌, All}
use live_trading_engine.Common.Int.{pos, ◌-ℤ◌}
use live_trading_engine.Common.Double.{Int-IsIeee, int_double, nought, ◌≼◌, min}
use live_trading_engine.Order.{buy}
use live_trading_engine.OrderBook.{get_sell_orders, get_buy_orders, get_best_ask, get_best_bid}
use live_trading_engine.OrderBook.Ladder.{flatten}
use live_trading_engine.Matching.Loop.{active_orders, match_loop, match_one, fill}
use live_trading_engine.Matching.Allocation.{allocate, rest_of, trades_of}
use live_trading_engine.Matching.Orders.{CanMatch, IsIdle, fills}
use live_trading_engine.Matching.Limit.{match_limit_order_fills, match_limit_order_exhausts}
use live_trading_engine.Matching.Market.{match_orders, match_market_order_fills, market_order_stuck}
use live_trading_engine.Matching.Ids.{HasUniqueIds, match_order-HasUniqueIds}
use live_trading_engine.Matching.{
  match_order, match_market_order, match_limit_order, match_at, opposite_orders, best_price,
}
use live_trading_engine.Examples.Scene.{market_store, market_book, market_engine}

clock : ℕ → ℕ
clock n = n

limit-CanMatch : CanMatch market_store market_book 2
unfolding opposite_orders get_sell_orders flatten
limit-CanMatch = record {
  incoming = refl;
  resting = ground arith;
  distinct = omega arith;
  outside = omega arith;
}

market-CanMatch : CanMatch market_store market_book 3
unfolding opposite_orders get_sell_orders flatten
market-CanMatch = record {
  incoming = refl;
  resting = ground arith;
  distinct = omega arith;
  outside = omega arith;
}

limit_fills : fills market_store market_book 2 (pos 101) ≡ (0, pos 5) ∷ (1, pos 2) ∷ []
unfolding fills opposite_orders get_sell_orders flatten allocate active_orders min ◌-ℤ◌
limit_fills = refl

match_limit_order_fills_example :
    (match_order clock market_engine market_store market_book 2).0
    ≡ trades_of clock
        (market_store.cell 2)
        market_store.cell
        (pos 101)
        1
        ((0, pos 5) ∷ (1, pos 2) ∷ [])
match_limit_order_fills_example =
    rw (← limit_fills)
      (match_limit_order_fills clock market_engine market_store market_book 2 Int-IsIeee refl
        limit-CanMatch).0

match_limit_order_exhausts_example :
    (rest_of (pos 7) (fills market_store market_book 2 (pos 101)) ≼ nought)
    ⊎ All
        (IsIdle buy (pos 101) (match_order clock market_engine market_store market_book 2).2)
        (opposite_orders market_book buy)
match_limit_order_exhausts_example =
    match_limit_order_exhausts clock market_engine market_store market_book 2 Int-IsIeee refl
      limit-CanMatch

match_market_order_fills_example :
    (match_order clock market_engine market_store market_book 3).3 ≡ market_book
match_market_order_fills_example =
    (match_market_order_fills clock market_engine market_store market_book 3 Int-IsIeee refl
      market-CanMatch).4

match_order-HasUniqueIds_example :
    HasUniqueIds (match_order clock market_engine market_store market_book 2).0
unfolding opposite_orders get_sell_orders flatten
match_order-HasUniqueIds_example =
    match_order-HasUniqueIds clock market_engine market_store market_book 2 limit-CanMatch
      (omega arith)

-- What a run of the engine computes with.
runs : ℕ
unfolding match_order match_market_order match_limit_order match_at match_loop match_one fill
    active_orders opposite_orders best_price get_sell_orders get_buy_orders get_best_ask
    get_best_bid flatten fills allocate rest_of min ◌-ℤ◌
runs = 0

market_unfilled :
    int_double.le
      (rest_of (pos 7) (fills market_store market_book 3 (best_price market_book buy)))
      nought
    ≡ false
unfolding runs
market_unfilled = refl

-- Order 3 takes the 5 at 100 and gets no more; then order 4 gets nothing, however often it is matched,
-- with 5 at 101 for sale.
market_order_stuck_example :
    match_orders clock market_engine
      (match_order clock market_engine market_store market_book 3).2
      (match_order clock market_engine market_store market_book 3).3
      (4 ∷ 4 ∷ [])
    ≡ []
unfolding runs
market_order_stuck_example =
    market_order_stuck clock market_engine market_engine market_store market_book 3 (4 ∷ 4 ∷ [])
      Int-IsIeee refl market-CanMatch market_unfilled ((refl, refl), ((refl, refl), tt))
