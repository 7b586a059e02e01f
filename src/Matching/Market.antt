-- ===== src/Matching/Market.antt =====
-- What matchOrder guarantees of a market order, and what a fully traded level does to later ones.
use live_trading_engine.Common.{
  ℕ, ◌≡◌, refl, sym, ap, ◌∙◌, subst, ◌++◌, inl, inr, All, List, [], ◌∷◌, Bool-cases, false,
}
use live_trading_engine.Common.Double.{Double, nought, IsIeee}
use live_trading_engine.Order.{market}
use live_trading_engine.Order.Store.{Store}
use live_trading_engine.OrderBook.{OrderBook}
use live_trading_engine.Matching.Loop.{
  Trade, Progress, active_orders, accepts, match_loop, match_one,
}
use live_trading_engine.Matching.Allocation.{rest_of, trades_of, after}
use live_trading_engine.Matching.Priority.{IsFair, InFull}
use live_trading_engine.Matching.Orders.{
  CanMatch, fills, IsIdle, match_at_lem, fills-IsFair, fills_exhaust,
}
use live_trading_engine.Matching.{
  Engine, opposite_orders, best_price, match_order, match_market_order, match_at, match_typed,
}

module _ {ℓ} {W : Type ℓ} ⦃d : Double W⦄ (clock : ℕ → ℕ) where
  loop_idle :
      (o : ℕ) (price : W) (rs : List ℕ) (s : Progress W)
      → All (λ r. accepts (s.store.cell o).side price (s.store.cell r).price ≡ false) rs
      → match_loop clock o price rs s ≡ s
  unfolding match_loop match_one
  loop_idle o price [] s h = refl
  loop_idle o price (r ∷ rs) s (g, h) = elim (Bool-cases (d.le s.remaining nought)) [
    | inl e ↦ rw e
    | inr e ↦ rw (e, g) (loop_idle o price rs s h)
  ]

  idle_active :
      (st : Store W) (o : ℕ) (price : W) (rs : List ℕ)
      → All (IsIdle (st.cell o).side price st) rs
      → All (λ r. accepts (st.cell o).side price (st.cell r).price ≡ false) (active_orders st rs)
  unfolding active_orders
  idle_active st o price [] h = tt
  idle_active st o price (r ∷ rs) (inl g, h) =
      elim (Bool-cases (d.lt nought (st.cell r).quantity)) [
        | inl e ↦ rw e (g, idle_active st o price rs h)
        | inr e ↦ rw e (idle_active st o price rs h)
      ]
  idle_active st o price (r ∷ rs) (inr g, h) = rw g (idle_active st o price rs h)

module _ {ℓ κ} {W : Type ℓ} {S : Type κ} ⦃d : Double W⦄ (clock : ℕ → ℕ) where
  match_market :
      (e : Engine W S) (st : Store W) (b : OrderBook W) (o : ℕ)
      → (st.cell o).type ≡ market
      → match_order clock e st b o ≡ match_at clock e st b o (best_price b (st.cell o).side)
  unfolding match_order match_market_order
  match_market e st b o h = ap (λ t. match_typed clock t e st b o) h

  -- A market order trades in the same way at the best price of the other side.
  pub match_market_order_fills :
      (e : Engine W S) (st : Store W) (b : OrderBook W) (o : ℕ)
      → IsIeee W
      → (st.cell o).type ≡ market
      → CanMatch st b o
      → let (trades, _, st', b') = match_order clock e st b o in
        let price = best_price b (st.cell o).side in
        let fs = fills st b o price in
        (trades ≡ trades_of clock (st.cell o) st.cell price e.next_trade_id fs)
        × All (IsFair (st.cell o).side price st.cell) fs
        × InFull st.cell fs
        × ((q : ℕ) → st'.cell q ≡ after fs st.cell q)
        × (b' ≡ b)
  match_market_order_fills e st b o laws h c =
      let price = best_price b (st.cell o).side in
      let (made, taken, own, book) = match_at_lem clock e st b o price c in
      let (fair, full) = fills-IsFair laws st b o price c in
      rw (match_market e st b o h) (made, fair, full, taken, book)

  -- A match that trades nothing leaves the store and the book.
  IsStill : Store W → OrderBook W → List (Trade W) × Engine W S × Store W × OrderBook W → Type ℓ
  IsStill st b (trades, _, st', b') = (trades ≡ []) × (st' ≡ st) × (b' ≡ b)

  match_at_idle :
      (e : Engine W S) (st : Store W) (b : OrderBook W) (o : ℕ) (price : W)
      → All (IsIdle (st.cell o).side price st) (opposite_orders b (st.cell o).side)
      → IsStill st b (match_at clock e st b o price)
  unfolding match_at IsStill
  match_at_idle e st b o price h =
      let same =
        loop_idle clock o price (active_orders st (opposite_orders b (st.cell o).side)) _
          (idle_active clock st o price _ h) in
      (
        ap (λ (s : Progress W). s.trades) same,
        ap (λ (s : Progress W). s.store) same,
        ap (λ (s : Progress W). s.book) same,
      )

  stuck_at :
      (e' : Engine W S) (st st' : Store W) (b b' : OrderBook W) (o next : ℕ)
      → IsIeee W
      → CanMatch st b o
      → d.le (rest_of (st.cell o).quantity (fills st b o (best_price b (st.cell o).side))) nought
        ≡ false
      → ((q : ℕ) → st'.cell q ≡ after (fills st b o (best_price b (st.cell o).side)) st.cell q)
      → b' ≡ b
      → (st'.cell next).side ≡ (st.cell o).side
      → IsStill st' b' (match_at clock e' st' b' next (best_price b' (st'.cell next).side))
  stuck_at e' st st' b b' o next laws c unfilled taken book same =
      elim (fills_exhaust laws st st' b o (best_price b (st.cell o).side) c taken) [
        | inl done ↦ cc
        | inr idle ↦ match_at_idle e' st' b' next _ (rw (same, book) idle)
      ]

  -- The trades of orders that are matched one after the other.
  unfoldable pub match_orders : Engine W S → Store W → OrderBook W → List ℕ → List (Trade W)
  match_orders e st b [] = []
  match_orders e st b (o ∷ os) =
      let (trades, e', st', b') = match_order clock e st b o in trades ++ match_orders e' st' b' os

  -- Orders each of which trades nothing.
  still_orders :
      (st : Store W) (b : OrderBook W) (P : ℕ → Type 0)
      → ((e : Engine W S) (o : ℕ) → P o → IsStill st b (match_order clock e st b o))
      → (e : Engine W S) (os : List ℕ) → All P os
      → match_orders e st b os ≡ []
  unfolding match_orders IsStill
  still_orders st b P still e [] h = refl
  still_orders st b P still e (o ∷ os) (h, hs) =
      let (none, heap, book) = still e o h in
      let e' = (match_order clock e st b o).1 in
      (λ i. none i ++ match_orders e' (heap i) (book i) os) ∙ still_orders st b P still e' os hs

  -- Traded-out orders stay in the book, and their price stays the best one. So when a market order
  -- could not be filled completely, any market orders of the same side that are matched after it, one
  -- after the other and with no order added to the book in between, trade nothing, however much is
  -- offered at the next price; whatever becomes of the users and the counters meanwhile.
  pub market_order_stuck :
      (e e' : Engine W S) (st : Store W) (b : OrderBook W) (o : ℕ) (later : List ℕ)
      → IsIeee W
      → (st.cell o).type ≡ market
      → CanMatch st b o
      → d.le (rest_of (st.cell o).quantity (fills st b o (best_price b (st.cell o).side))) nought
        ≡ false
      → let (_, _, st', b') = match_order clock e st b o in
        All (λ n. ((st'.cell n).type ≡ market) × ((st'.cell n).side ≡ (st.cell o).side)) later
        → match_orders e' (match_order clock e st b o).2 (match_order clock e st b o).3 later ≡ []
  market_order_stuck e e' st b o later laws h c unfilled all =
      let (made, _, _, taken, book) = match_market_order_fills e st b o laws h c in
      let st' = (match_order clock e st b o).2 in
      let b' = (match_order clock e st b o).3 in
      still_orders st' b' _
        (λ x n (type, side).
          subst (IsStill st' b') (sym (match_market x st' b' n type))
            (stuck_at x st st' b b' o n laws c unfilled taken book side))
        e' later all
