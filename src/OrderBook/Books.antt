-- ===== src/OrderBook/Books.antt =====
-- What the order book keeps true, and what its operations do to the queues of both sides.
use live_trading_engine.Common.{
  ℕ, ◌≡◌, refl, ◌≢◌, ◌↔◌, ◌==◌, text_eq_iff, ◌⊎◌, inl, inr, Bool-cases, true, false, Option, none,
  some, List, [], ◌∷◌, ◌++◌, arith, if◌then◌else◌, All, All-append, All-map, text_eq,
}
use mathlib.Core.Path.{fun_ext}
use live_trading_engine.Common.Double.{Double, nought, IsNum, IsIeee}
use live_trading_engine.Order.{OrderSide, buy, sell, pending, set_status}
use live_trading_engine.Order.Store.{Store, write}
use live_trading_engine.OrderBook.Ladder.{
  Levels, flatten, place, side_before, HasPrice, IsBehind, IsLadder, not_before_trans, before_asym,
}
use live_trading_engine.OrderBook.Push.{push_level-IsLadder, flatten-push_level}
use live_trading_engine.OrderBook.{
  OrderBook, add_order, push_side, get_buy_orders, get_sell_orders, get_best_bid, get_best_ask,
  first_price,
}

abbrev pub opposite : OrderSide → OrderSide
opposite buy = sell
opposite sell = buy

module _ {ℓ} {W : Type ℓ} where
  abbrev pub prices : Store W → ℕ → W
  prices st r = (st.cell r).price

  -- The orders of one side, best first.
  abbrev pub queue : OrderSide → OrderBook W → List ℕ
  queue buy b = get_buy_orders b
  queue sell b = get_sell_orders b

  -- The null pointer, or an order for another symbol.
  abbrev Refused : Store W → OrderBook W → Option ℕ → Type 0
  Refused st b none = Unit {0}
  Refused st b (some r) = (st.cell r).symbol ≢ b.symbol

  prices-write :
      (st : Store W) (r : ℕ) → prices (write st r (set_status (st.cell r) pending)) ≡ prices st
  unfolding write set_status
  prices-write st r = fun_ext λ q. ground arith

module _ {ℓ} {W : Type ℓ} ⦃d : Double W⦄ where
  abbrev pub best : OrderSide → OrderBook W → W
  best buy b = get_best_bid b
  best sell b = get_best_ask b

  -- `p` is 0.0 if the queue is empty, and else the price of its first order, beaten by none.
  abbrev pub IsBest : OrderSide → (ℕ → W) → W → List ℕ → Type ℓ
  IsBest s price p rs =
      ((rs ≡ []) × (p ≡ nought))
      ⊎ ((r : ℕ) × (more : List ℕ) × (rs ≡ r ∷ more)
          × HasPrice s price p r
          × All (λ q. side_before s (price q) p ≡ false) rs)

  -- Both sides are strictly ordered levels of orders at their prices.
  pub record IsBook (st : Store W) (b : OrderBook W) : Type ℓ where
    pub bids : IsLadder buy (prices st) b.buy_orders
    pub asks : IsLadder sell (prices st) b.sell_orders

  module _ (laws : IsIeee W) where
    push_side-IsBook :
        (st : Store W) (b : OrderBook W) (s : OrderSide) (r : ℕ)
        → IsNum (prices st r)
        → IsBook st b
        → IsBook st (push_side b s (prices st r) r)
    unfolding push_side
    push_side-IsBook st b buy r n v = record {
      bids = push_level-IsLadder laws buy (prices st) r b.buy_orders n v.bids;
      asks = v.asks;
    }
    push_side-IsBook st b sell r n v = record {
      bids = v.bids;
      asks = push_level-IsLadder laws sell (prices st) r b.sell_orders n v.asks;
    }

    IsBook-prices :
        (st st' : Store W) (b : OrderBook W) → prices st' ≡ prices st → IsBook st b → IsBook st' b
    IsBook-prices st st' b e v = record { bids = rw e v.bids; asks = rw e v.asks }

    -- `addOrder` keeps the book well formed, whether it takes the order or not, if the price of the
    -- order is a number.
    pub add_order-IsBook :
        (st : Store W) (b : OrderBook W) (r : ℕ)
        → IsNum (prices st r)
        → IsBook st b
        → let done = add_order st b (some r) in IsBook done.2 done.1
    unfolding add_order
    add_order-IsBook st b r n v = elim (Bool-cases (text_eq (st.cell r).symbol b.symbol)) [
      | inl e ↦
          rw e (
            IsBook-prices st _ _ (prices-write st r) (push_side-IsBook st b (st.cell r).side r n v))
      | inr e ↦ rw e v
    ]

    -- `addOrder` takes an order for its symbol, at any price that is a number: the order goes into
    -- the queue of its side behind every order that its price is not better than, the other side
    -- stays, and the order becomes pending, no other order changing.
    pub add_order_lem :
        (st : Store W) (b : OrderBook W) (r : ℕ)
        → (st.cell r).symbol ≡ b.symbol
        → IsNum (prices st r)
        → IsBook st b
        → let done = add_order st b (some r) in
          let s = (st.cell r).side in
          (done.0 ≡ true)
          × (queue s done.1 ≡ place (side_before s) (prices st) r (queue s b))
          × (queue (opposite s) done.1 ≡ queue (opposite s) b)
          × ((q : ℕ)
              → done.2.cell q ≡ (if r == q then set_status (st.cell r) pending else st.cell q))
    unfolding add_order
    add_order_lem st b r e n v =
        rw ((text_eq_iff (st.cell r).symbol b.symbol).1 e)
          (refl, added (st.cell r).side, kept (st.cell r).side, λ q. unfold write in refl)
      where
        added :
            (s : OrderSide)
            → queue s (push_side b s (prices st r) r)
              ≡ place (side_before s) (prices st) r (queue s b)
        added buy =
            unfold push_side get_buy_orders in
            flatten-push_level laws buy (prices st) r b.buy_orders n v.bids
        added sell =
            unfold push_side get_sell_orders in
            flatten-push_level laws sell (prices st) r b.sell_orders n v.asks

        kept :
            (s : OrderSide)
            → queue (opposite s) (push_side b s (prices st r) r) ≡ queue (opposite s) b
        kept buy = unfold push_side get_sell_orders in refl
        kept sell = unfold push_side get_buy_orders in refl

    behind-All :
        (s : OrderSide) (price : ℕ → W) (p : W) (m : Levels W)
        → IsNum p
        → IsLadder s price m
        → All (IsBehind s p) m
        → All (λ r. side_before s (price r) p ≡ false) (flatten m)
    unfolding flatten
    behind-All s price p [] n l h = tt
    behind-All s price p ((q, rs) ∷ m) n (nq, ne, hp, hb, lm) h =
        All-append _ rs (flatten m)
          (All-map
            (λ r hr.
              not_before_trans laws s (price r) q p hr.0 nq n hr.1 (before_asym laws s p q h.0))
            rs hp)
          (behind-All s price p m n lm h.1)

    -- The head of a ladder is the best price.
    first_price-IsBest :
        (s : OrderSide) (price : ℕ → W) (m : Levels W)
        → IsLadder s price m
        → IsBest s price (first_price m) (flatten m)
    unfolding flatten first_price
    first_price-IsBest s price [] l = inl (refl, refl)
    first_price-IsBest s price ((p, []) ∷ m) l = absurd (l.1 refl)
    first_price-IsBest s price ((p, r ∷ rs) ∷ m) (n, ne, hp, hb, lm) = inr (
      r,
      rs ++ flatten m,
      refl,
      hp.0,
      All-append _ (r ∷ rs) (flatten m) (All-map (λ r h. h.1) (r ∷ rs) hp)
          (behind-All s price p m n lm hb),
    )

    -- `getBestBid` and `getBestAsk` are the price of the first order of their queue, which no order
    -- of that queue beats; they are 0.0 if the side is empty.
    pub best-IsBest :
        (st : Store W) (b : OrderBook W) (s : OrderSide)
        → IsBook st b
        → IsBest s (prices st) (best s b) (queue s b)
    unfolding get_best_bid get_best_ask get_buy_orders get_sell_orders
    best-IsBest st b buy v = first_price-IsBest buy (prices st) b.buy_orders v.bids
    best-IsBest st b sell v = first_price-IsBest sell (prices st) b.sell_orders v.asks

  -- `addOrder` refuses exactly the null pointer and an order for another symbol, and then changes
  -- neither the book nor any order.
  add_order_refuses :
      (st : Store W) (b : OrderBook W) (p : Option ℕ)
      → (((add_order st b p).0 ≡ false) ↔ Refused st b p)
        × (Refused st b p → add_order st b p ≡ (false, b, st))
  unfolding add_order
  add_order_refuses st b none = (((λ _. tt), λ _. refl), λ _. refl)
  add_order_refuses st b (some r) = ground (arith, text_eq_iff (st.cell r).symbol b.symbol)
