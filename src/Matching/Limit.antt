-- ===== src/Matching/Limit.antt =====
-- What matchOrder guarantees of a limit order.
use live_trading_engine.Common.{ℕ, ◌≡◌, ap, ◌⊎◌, All, []}
use live_trading_engine.Common.Double.{Double, nought, ◌≼◌, IsIeee}
use live_trading_engine.Order.{limit, stop}
use live_trading_engine.Order.Store.{Store}
use live_trading_engine.OrderBook.{OrderBook}
use live_trading_engine.Matching.Allocation.{rest_of, trades_of, after}
use live_trading_engine.Matching.Priority.{IsFair, InFull}
use live_trading_engine.Matching.Orders.{
  CanMatch, fills, IsIdle, match_at_lem, fills-IsFair, fills_exhaust,
}
use live_trading_engine.Matching.{
  Engine, opposite_orders, match_order, match_limit_order, match_typed,
}

module _ {ℓ κ} {W : Type ℓ} {S : Type κ} ⦃d : Double W⦄ (clock : ℕ → ℕ) (e : Engine W S)
    (st : Store W) (b : OrderBook W) (o : ℕ) where
  match_limit :
      (st.cell o).type ≡ limit → match_order clock e st b o ≡ match_limit_order clock e st b o
  unfolding match_order
  match_limit h = ap (λ t. match_typed clock t e st b o) h

  -- A limit order trades with the orders of the other side in the order of their queue. Every fill is
  -- at a resting price that the limit accepts, above zero and within the resting quantity, and all
  -- fills but the last take the whole resting quantity. Each trade is made at the limit price. What a
  -- resting order gave is taken from it; no other order changes, not even the incoming one.
  pub match_limit_order_fills :
      IsIeee W
      → (st.cell o).type ≡ limit
      → CanMatch st b o
      → let (trades, _, st', b') = match_order clock e st b o in
        let price = (st.cell o).price in
        let fs = fills st b o price in
        (trades ≡ trades_of clock (st.cell o) st.cell price e.next_trade_id fs)
        × All (IsFair (st.cell o).side price st.cell) fs
        × InFull st.cell fs
        × ((q : ℕ) → st'.cell q ≡ after fs st.cell q)
        × (st'.cell o ≡ st.cell o)
        × (b' ≡ b)
  unfolding match_limit_order
  match_limit_order_fills laws h c =
      let (made, taken, own, book) = match_at_lem clock e st b o (st.cell o).price c in
      let (fair, full) = fills-IsFair laws st b o (st.cell o).price c in
      rw (match_limit h) (made, fair, full, taken, own, book)

  -- After a limit order either its quantity is used up, or no order of the other side can trade at
  -- its price any more: the price is not acceptable or the order has nothing left.
  pub match_limit_order_exhausts :
      IsIeee W
      → (st.cell o).type ≡ limit
      → CanMatch st b o
      → let st' = (match_order clock e st b o).2 in
        let price = (st.cell o).price in
        (rest_of (st.cell o).quantity (fills st b o price) ≼ nought)
        ⊎ All (IsIdle (st.cell o).side price st') (opposite_orders b (st.cell o).side)
  unfolding match_limit_order
  match_limit_order_exhausts laws h c =
      let same = (match_at_lem clock e st b o (st.cell o).price c).1 in
      rw (match_limit h)
        (fills_exhaust laws st (match_limit_order clock e st b o).2 b o (st.cell o).price c same)

  -- A stop order never trades: matchOrder leaves everything as it is.
  pub match_stop_order : (st.cell o).type ≡ stop → match_order clock e st b o ≡ ([], e, st, b)
  unfolding match_order match_typed
  match_stop_order h = ap (λ t. match_typed clock t e st b o) h
