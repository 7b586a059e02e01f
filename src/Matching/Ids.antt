-- ===== src/Matching/Ids.antt =====
-- The numbers of the trades.
use live_trading_engine.Common.{
  ℕ, ◌+◌, ◌%◌, ◌^◌, ◌≤◌, ◌≡◌, ◌≢◌, refl, ◌∙◌, List, [], ◌∷◌, All, All-map, length, arith, decimal,
  decimal-injective,
}
use live_trading_engine.Common.Double.{Double, min}
use live_trading_engine.Order.{Order, OrderSide, OrderType, limit, market, stop}
use live_trading_engine.Order.Store.{Store}
use live_trading_engine.OrderBook.{OrderBook}
use live_trading_engine.Matching.Loop.{Trade, create_trade, active_orders}
use live_trading_engine.Matching.Allocation.{trades_of, allocate}
use live_trading_engine.Matching.Orders.{CanMatch, fills, match_at_lem}
use live_trading_engine.Matching.{
  Engine, opposite_orders, match_at, match_order, match_typed, match_limit_order,
  match_market_order,
}

module _ {ℓ} {W : Type ℓ} where
  -- The trade has a number from `n` up.
  abbrev FromId : ℕ → Trade W → Type 0
  FromId n t = (m : ℕ) × (t.trade_id ≡ decimal m) × (n ≤ m)

  -- No two trades have the same id.
  abbrev pub HasUniqueIds : List (Trade W) → Type 0
  HasUniqueIds [] = Unit
  HasUniqueIds (t ∷ ts) = All (λ u. t.trade_id ≢ u.trade_id) ts × HasUniqueIds ts

module _ {ℓ} {W : Type ℓ} ⦃d : Double W⦄ (clock : ℕ → ℕ) (o : Order W) (cell : ℕ → Order W)
    (price : W) where
  trades_of-FromId :
      (n k : ℕ) (fs : List (ℕ × W))
      → k ≤ n
      → n + length fs ≤ 2 ^ 64
      → All (FromId k) (trades_of clock o cell price n fs)
  unfolding trades_of create_trade
  trades_of-FromId n k [] h b = tt
  trades_of-FromId n k ((r, t) ∷ []) h b = ((n, refl, h), tt)
  trades_of-FromId n k ((r, t) ∷ f ∷ fs) h b =
      ((n, refl, h), trades_of-FromId ((n + 1) % 2 ^ 64) k (f ∷ fs) (omega arith) (omega arith))

  -- The ids of the trades of one order are distinct while the counter does not wrap around.
  pub trades_of-HasUniqueIds :
      (n : ℕ) (fs : List (ℕ × W))
      → n + length fs ≤ 2 ^ 64
      → HasUniqueIds (trades_of clock o cell price n fs)
  unfolding trades_of create_trade
  trades_of-HasUniqueIds n [] b = tt
  trades_of-HasUniqueIds n ((r, t) ∷ []) b = (tt, tt)
  trades_of-HasUniqueIds n ((r, t) ∷ f ∷ fs) b = (
    All-map (λ u id same. omega (arith, decimal-injective n id.0 (same ∙ id.1)))
        (trades_of clock o cell price ((n + 1) % 2 ^ 64) (f ∷ fs))
        (trades_of-FromId ((n + 1) % 2 ^ 64) (n + 1) (f ∷ fs) (omega arith) (omega arith)),
    trades_of-HasUniqueIds ((n + 1) % 2 ^ 64) (f ∷ fs) (omega arith),
  )

module _ {ℓ} {W : Type ℓ} ⦃d : Double W⦄ where
  length-allocate-le :
      (side : OrderSide) (price : W) (cell : ℕ → Order W) (rs : List ℕ) (remaining : W)
      → length (allocate side price cell remaining rs) ≤ length rs
  unfolding allocate
  length-allocate-le side price cell [] remaining = omega arith
  length-allocate-le side price cell (r ∷ rs) remaining = ground (
    arith,
    length-allocate-le side price cell rs (d.sub remaining (min remaining (cell r).quantity)),
    length-allocate-le side price cell rs remaining,
  )

  length-active_orders-le : (st : Store W) (rs : List ℕ) → length (active_orders st rs) ≤ length rs
  unfolding active_orders
  length-active_orders-le st [] = omega arith
  length-active_orders-le st (r ∷ rs) = ground (arith, length-active_orders-le st rs)

  length-fills-le :
      (st : Store W) (b : OrderBook W) (o : ℕ) (price : W)
      → length (fills st b o price) ≤ length (opposite_orders b (st.cell o).side)
  unfolding fills
  length-fills-le st b o price =
      let rs = opposite_orders b (st.cell o).side in
      omega (
        arith,
        length-allocate-le (st.cell o).side price st.cell (active_orders st rs)
            (st.cell o).quantity,
        length-active_orders-le st rs,
      )

module _ {ℓ κ} {W : Type ℓ} {S : Type κ} ⦃d : Double W⦄ (clock : ℕ → ℕ) (e : Engine W S)
    (st : Store W) (b : OrderBook W) (o : ℕ) where
  match_at-HasUniqueIds :
      (price : W)
      → CanMatch st b o
      → e.next_trade_id + length (opposite_orders b (st.cell o).side) ≤ 2 ^ 64
      → HasUniqueIds (match_at clock e st b o price).0
  match_at-HasUniqueIds price c h = rw (match_at_lem clock e st b o price c).0 (
      trades_of-HasUniqueIds clock (st.cell o) st.cell price e.next_trade_id _
        (omega (arith, length-fills-le st b o price)))

  -- The trades of one order have distinct ids, as long as the counter of the engine does not wrap
  -- around within as many trades as there are orders on the other side.
  pub match_order-HasUniqueIds :
      CanMatch st b o
      → e.next_trade_id + length (opposite_orders b (st.cell o).side) ≤ 2 ^ 64
      → HasUniqueIds (match_order clock e st b o).0
  unfolding match_order
  match_order-HasUniqueIds c h = of_type (st.cell o).type
    where
      of_type : (t : OrderType) → HasUniqueIds (match_typed clock t e st b o).0
      of_type limit = unfold match_typed match_limit_order in match_at-HasUniqueIds _ c h
      of_type market = unfold match_typed match_market_order in match_at-HasUniqueIds _ c h
      of_type stop = unfold match_typed in tt
