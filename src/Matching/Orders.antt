-- ===== src/Matching/Orders.antt =====
-- What matchLimitOrder and matchMarketOrder do to the orders of a book.
use live_trading_engine.Common.{
  ℕ, ◌≡◌, refl, sym, ap, ◌∙◌, ◌≢◌, ◌⊎◌, inl, inr, Bool-cases, false, Option, none, some, everywhere,
  List, [], ◌∷◌, All, All-map, arith,
}
use live_trading_engine.Common.Double.{Double, nought, ◌≼◌, IsFinite, IsIeee}
use live_trading_engine.Order.{Order, OrderSide, set_quantity}
use live_trading_engine.Order.Store.{Store}
use live_trading_engine.OrderBook.{OrderBook}
use live_trading_engine.Matching.Loop.{accepts, active_orders}
use live_trading_engine.Matching.Allocation.{
  Distinct, given, allocate, rest_of, trades_of, after, minus,
}
use live_trading_engine.Matching.Refines.{allocate-Within, given_ne, match_loop_lem}
use live_trading_engine.Matching.Priority.{
  IsActive, IsFair, InFull, IsSpent, allocate-IsFair, allocate-InFull, allocate_exhausts,
}
use live_trading_engine.Matching.{Engine, opposite_orders, match_at}

module _ {ℓ} {W : Type ℓ} ⦃d : Double W⦄ where
  -- The orders that the incoming order meets have finite quantities and are distinct from one
  -- another and from it.
  pub record CanMatch (st : Store W) (b : OrderBook W) (o : ℕ) : Type ℓ where
    pub incoming : IsFinite (st.cell o).quantity
    pub resting : All (λ r. IsFinite (st.cell r).quantity) (opposite_orders b (st.cell o).side)
    pub distinct : Distinct (opposite_orders b (st.cell o).side)
    pub outside : All (λ r. r ≢ o) (opposite_orders b (st.cell o).side)

  module _ (st : Store W) where
    active-All {κ} : (P : ℕ → Type κ) (rs : List ℕ) → All P rs → All P (active_orders st rs)
    unfolding active_orders
    active-All P [] h = tt
    active-All P (r ∷ rs) (p, h) = elim (Bool-cases (d.lt nought (st.cell r).quantity)) [
      | inl e ↦ rw e (p, active-All P rs h)
      | inr e ↦ rw e (active-All P rs h)
    ]

    active-Distinct : (rs : List ℕ) → Distinct rs → Distinct (active_orders st rs)
    unfolding active_orders
    active-Distinct [] h = tt
    active-Distinct (r ∷ rs) (f, h) = elim (Bool-cases (d.lt nought (st.cell r).quantity)) [
      | inl e ↦ rw e (active-All (λ q. r ≢ q) rs f, active-Distinct rs h)
      | inr e ↦ rw e (active-Distinct rs h)
    ]

    active_orders-IsActive :
        (rs : List ℕ)
        → All (λ r. IsFinite (st.cell r).quantity) rs
        → All (IsActive st.cell) (active_orders st rs)
    unfolding active_orders
    active_orders-IsActive [] h = tt
    active_orders-IsActive (r ∷ rs) (f, h) = elim (Bool-cases (d.lt nought (st.cell r).quantity)) [
      | inl e ↦ rw e ((f, e), active_orders-IsActive rs h)
      | inr e ↦ rw e (active_orders-IsActive rs h)
    ]

    -- What holds of the active orders, and of the others, holds of all.
    from_active {κ} :
        (Q : ℕ → Type κ) (rs : List ℕ)
        → All (λ r. d.lt nought (st.cell r).quantity ≡ false → Q r) rs
        → All Q (active_orders st rs)
        → All Q rs
    unfolding active_orders
    from_active Q [] h k = tt
    from_active Q (r ∷ rs) (f, h) k = elim (Bool-cases (d.lt nought (st.cell r).quantity)) [
      | inl e ↦ let both = rw (e, active_orders) at k in (both.0, from_active Q rs h both.1)
      | inr e ↦ (f e, from_active Q rs h (rw (e, active_orders) at k))
    ]

    inactive_ne :
        (r : ℕ) (rs : List ℕ)
        → d.lt nought (st.cell r).quantity ≡ false
        → All (IsActive st.cell) rs
        → All (λ q. r ≢ q) rs
    inactive_ne r rs e =
        All-map (λ q h same. cc (ap (λ k. d.lt nought (st.cell k).quantity) same, h.1, e)) rs

  -- The fills of an order that is matched at a price: the allocation over the active orders of the
  -- other side, as they stand in the book.
  unfoldable pub fills : Store W → OrderBook W → ℕ → W → List (ℕ × W)
  fills st b o price =
      let order = st.cell o in
      allocate order.side price st.cell order.quantity
        (active_orders st (opposite_orders b order.side))

  -- The order cannot trade at the price: it is not acceptable, or has nothing left.
  abbrev pub IsIdle : OrderSide → W → Store W → ℕ → Type 0
  IsIdle side price st r =
      (accepts side price (st.cell r).price ≡ false) ⊎ (d.lt nought (st.cell r).quantity ≡ false)

  fills_outside :
      (st : Store W) (b : OrderBook W) (o : ℕ) (price : W)
      → CanMatch st b o
      → after (fills st b o price) st.cell o ≡ st.cell o
  unfolding fills
  fills_outside st b o price c = ap (minus (st.cell o)) (
      given_ne (fills st b o price) o (
        allocate-Within (λ q. o ≢ q) (st.cell o).side price st.cell _ _
          (active-All st (λ q. o ≢ q) (opposite_orders b (st.cell o).side)
            (All-map (λ r ne same. ne (sym same)) _ c.outside))))

  minus_price : (o : Order W) (g : Option W) → (minus o g).price ≡ o.price
  unfolding set_quantity
  minus_price o none = refl
  minus_price o (some t) = refl

  module _ (laws : IsIeee W) where
    open laws use {finite_num, lit_finite, lt-eq-not-le}

    nought_not_positive : d.lt nought nought ≡ false
    nought_not_positive =
        let n = finite_num nought (lit_finite 0 0 (omega arith)) in
        ground (arith, lt-eq-not-le nought nought n n)

    -- Every fill is at an acceptable price, above zero and within the quantity of its order; all but
    -- the last take the whole quantity, so an order is served only after all those before it in the
    -- queue that have an acceptable price.
    pub fills-IsFair :
        (st : Store W) (b : OrderBook W) (o : ℕ) (price : W)
        → CanMatch st b o
        → All (IsFair (st.cell o).side price st.cell) (fills st b o price)
          × InFull st.cell (fills st b o price)
    unfolding fills
    fills-IsFair st b o price c =
        let rs = opposite_orders b (st.cell o).side in
        let active = active_orders-IsActive st rs c.resting in
        (
          allocate-IsFair laws _ price st.cell _ _ c.incoming active,
          allocate-InFull laws _ price st.cell _ _ c.incoming active,
        )

    IsSpent-IsIdle :
        (side : OrderSide) (price : W) (st st' : Store W) (fs : List (ℕ × W))
        → ((q : ℕ) → st'.cell q ≡ after fs st.cell q)
        → (r : ℕ) → IsSpent side price st.cell fs r
        → IsIdle side price st' r
    IsSpent-IsIdle side price st st' fs same r (inl h) =
        inl (rw (same r, minus_price (st.cell r) (given fs r)) h)
    IsSpent-IsIdle side price st st' fs same r (inr h) = inr (rw (same r, h) nought_not_positive)

    -- When the fills are done, either the incoming quantity is used up, or no order of the other
    -- side can trade at the price any more.
    pub fills_exhaust :
        (st st' : Store W) (b : OrderBook W) (o : ℕ) (price : W)
        → CanMatch st b o
        → ((q : ℕ) → st'.cell q ≡ after (fills st b o price) st.cell q)
        → (rest_of (st.cell o).quantity (fills st b o price) ≼ nought)
          ⊎ All (IsIdle (st.cell o).side price st') (opposite_orders b (st.cell o).side)
    unfolding fills
    fills_exhaust st st' b o price c same =
        let side = (st.cell o).side in
        let rs = opposite_orders b side in
        let active = active_orders-IsActive st rs c.resting in
        let fs = allocate side price st.cell (st.cell o).quantity (active_orders st rs) in
        elim (allocate_exhausts laws side price st.cell (active_orders st rs) _ c.incoming active
          (active-Distinct st rs c.distinct)) [
            | inl h ↦ inl h
            | inr h ↦ inr (
                from_active st (IsIdle side price st') rs
                  (everywhere rs λ r e. inr (
                    rw
                      (
                        same r,
                        given_ne fs r (
                            allocate-Within (λ q. r ≢ q) side price st.cell _ (active_orders st rs)
                              (inactive_ne st r (active_orders st rs) e active)),
                      )
                      e))
                  (All-map (IsSpent-IsIdle side price st st' fs same) (active_orders st rs) h))
          ]

  module _ {κ} {S : Type κ} (clock : ℕ → ℕ) (e : Engine W S) where
    -- Matching at a price makes the trades of the fills, numbered on from the engine's counter,
    -- takes from each resting order what it gave, and changes no other order, not even the incoming
    -- one, and not the book.
    pub match_at_lem :
        (st : Store W) (b : OrderBook W) (o : ℕ) (price : W)
        → CanMatch st b o
        → let (trades, _, st', b') = match_at clock e st b o price in
          let fs = fills st b o price in
          (trades ≡ trades_of clock (st.cell o) st.cell price e.next_trade_id fs)
          × ((q : ℕ) → st'.cell q ≡ after fs st.cell q)
          × (st'.cell o ≡ st.cell o)
          × (b' ≡ b)
    unfolding match_at fills
    match_at_lem st b o price c =
        let rs = opposite_orders b (st.cell o).side in
        let out =
          match_loop_lem clock o price (active_orders st rs) _ (active-Distinct st rs c.distinct)
            (active-All st (λ q. q ≢ o) rs c.outside) in
        (out.trades, out.orders, out.orders o ∙ fills_outside st b o price c, out.book)
