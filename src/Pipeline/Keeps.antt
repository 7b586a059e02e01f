-- ===== src/Pipeline/Keeps.antt =====
-- What addOrder does to a sane book and heap, and that the new order can then be matched.
use live_trading_engine.Common.{
  ℕ, ◌+◌, ◌==◌, ==_iff, ◌≡◌, ◌≢◌, refl, sym, ap, ◌∙◌, subst, inl, inr, Bool-cases, Bool, true,
  false, some, All, All-map, arith, Text, if◌then◌else◌,
}
use live_trading_engine.Common.Double.{Double, IsNum, IsFinite, IsIeee}
use live_trading_engine.Order.{Order, OrderSide, buy, sell, pending, set_status}
use live_trading_engine.Order.Store.{Store, alloc, write, cell-write_self}
use live_trading_engine.OrderBook.{OrderBook, add_order, push_side}
use live_trading_engine.OrderBook.Ladder.{place, side_before}
use live_trading_engine.OrderBook.Books.{
  IsBook, queue, opposite, prices, add_order-IsBook, add_order_lem,
}
use live_trading_engine.Matching.{opposite_orders}
use live_trading_engine.Matching.Allocation.{Distinct}
use live_trading_engine.Matching.Orders.{CanMatch}
use live_trading_engine.Pipeline.Sane.{
  IsHeap, IsQueue, IsListing, Extends, IsQueue-extend, IsListing-extend, alloc-Extends,
  placed-IsQueue,
}

module _ {ℓ} {W : Type ℓ} ⦃d : Double W⦄ where
  add_order-next :
      (st : Store W) (b : OrderBook W) (r : ℕ) → (add_order st b (some r)).2.next ≡ st.next
  unfolding add_order write
  add_order-next st b r = ground arith

  push_side-symbol :
      (b : OrderBook W) (s : OrderSide) (p : W) (r : ℕ) → (push_side b s p r).symbol ≡ b.symbol
  unfolding push_side
  push_side-symbol b buy p r = refl
  push_side-symbol b sell p r = refl

  add_order-symbol :
      (st : Store W) (b : OrderBook W) (r : ℕ) → (add_order st b (some r)).1.symbol ≡ b.symbol
  unfolding add_order
  add_order-symbol st b r = ground (arith, push_side-symbol b (st.cell r).side (st.cell r).price r)

  -- An order fit to be added: a price that is a number, a finite quantity.
  pub record IsFit (o : Order W) : Type 0 where
    pub price : IsNum o.price
    pub quantity : IsFinite o.quantity

  opposite-queue : (b : OrderBook W) (s : OrderSide) → opposite_orders b s ≡ queue (opposite s) b
  unfolding opposite_orders
  opposite-queue b buy = refl
  opposite-queue b sell = refl

  both_sides :
      (st : Store W) (b : OrderBook W) (s : OrderSide)
      → IsQueue st (queue s b)
      → IsQueue st (queue (opposite s) b)
      → IsQueue st (queue buy b) × IsQueue st (queue sell b)
  both_sides st b buy h k = (h, k)
  both_sides st b sell h k = (k, h)

  side_queue :
      (st : Store W) (symbol : Text) (b : OrderBook W) (s : OrderSide)
      → IsListing st symbol b
      → IsQueue st (queue s b)
  side_queue st symbol b buy l = l.bids
  side_queue st symbol b sell l = l.asks

  -- What becomes of a book and of the heap when an order is added.
  pub record IsAdded (st : Store W) (symbol : Text) (done : Bool × OrderBook W × Store W)
      : Type ℓ where
    pub taken : done.0 ≡ true
    pub listing : IsListing done.2 symbol done.1
    pub heap : IsHeap done.2
    pub extends : Extends st done.2
    pub matchable : CanMatch done.2 done.1 st.next

  module _ (laws : IsIeee W) (st : Store W) (symbol : Text) (b : OrderBook W) (o : Order W)
      (fit : IsFit o) (same : o.symbol ≡ symbol) (l : IsListing st symbol b) (h : IsHeap st) where
    cell_lem :
        (q : ℕ)
        → (if st.next == q
            then set_status ((alloc st o).cell st.next) pending
            else (alloc st o).cell q)
          ≡ (if st.next == q then set_status o pending else st.cell q)
    unfolding alloc write
    cell_lem q = elim (Bool-cases (st.next == q)) [
      | inl e ↦ rw (e, (==_iff st.next st.next).1 refl) refl
      | inr e ↦ rw e refl
    ]

    -- The queue of the order's side gets the order at its place, and the heap the pending order.
    pub added_lem :
        let (taken, b1, st1) = add_order (alloc st o) b (some st.next) in
        (taken ≡ true)
        × (queue o.side b1
            ≡ place (side_before o.side) (prices (alloc st o)) st.next (queue o.side b))
        × (queue (opposite o.side) b1 ≡ queue (opposite o.side) b)
        × ((q : ℕ) → st1.cell q ≡ (if st.next == q then set_status o pending else st.cell q))
        × (st1.next ≡ st.next + 1)
        × IsBook st1 b1
        × (b1.symbol ≡ symbol)
    added_lem =
        let st0 = alloc st o in
        let new : (alloc st o).cell st.next ≡ o = unfold alloc in cell-write_self st st.next o in
        let l0 = IsListing-extend st (alloc st o) symbol b (alloc-Extends st o) l in
        let n0 : IsNum (prices (alloc st o) st.next) =
          subst (λ (c : Order W). IsNum c.price) (sym new) fit.price in
        let side = ap (λ (c : Order W). c.side) new in
        let (taken, own, other, cells) =
          add_order_lem laws (alloc st o) b st.next
            (ap (λ (c : Order W). c.symbol) new ∙ same ∙ sym l.same_symbol) n0 l0.book in
        (
          taken,
          subst
              (λ x.
                queue x (add_order st0 b (some st.next)).1
                ≡ place (side_before x) (prices st0) st.next (queue x b))
              side own,
          subst (λ x. queue (opposite x) (add_order st0 b (some st.next)).1 ≡ queue (opposite x) b)
              side other,
          (λ q. cells q ∙ cell_lem q),
          add_order-next (alloc st o) b st.next ∙ unfold alloc in refl,
          add_order-IsBook laws (alloc st o) b st.next n0 l0.book,
          add_order-symbol (alloc st o) b st.next ∙ l.same_symbol,
        )

    cell-IsHeap :
        (st1 : Store W)
        → ((q : ℕ) → st1.cell q ≡ (if st.next == q then set_status o pending else st.cell q))
        → st1.next ≡ st.next + 1
        → IsHeap st1
    unfolding set_status
    cell-IsHeap st1 cells next r lt = elim (Bool-cases (st.next == r)) [
      | inl e ↦ rw (cells r, e) fit.quantity
      | inr e ↦ rw (cells r, e) (h r (ground (arith, ==_iff st.next r)))
    ]

    cell-Extends :
        (st1 : Store W)
        → ((q : ℕ) → st1.cell q ≡ (if st.next == q then set_status o pending else st.cell q))
        → st1.next ≡ st.next + 1
        → Extends st st1
    cell-Extends st1 cells next = record {
      grown = λ r lt. omega arith;
      priced = λ r lt.
          let ne : (st.next == r) ≡ false = ground (arith, ==_iff st.next r) in
          rw (cells r, ne) refl;
    }

    new_side :
        (st1 : Store W)
        → ((q : ℕ) → st1.cell q ≡ (if st.next == q then set_status o pending else st.cell q))
        → (st1.cell st.next).side ≡ o.side
    unfolding set_status
    new_side st1 cells = rw (cells st.next, (==_iff st.next st.next).1 refl) refl

    pub add_order-IsAdded : IsAdded st symbol (add_order (alloc st o) b (some st.next))
    add_order-IsAdded =
        let done = add_order (alloc st o) b (some st.next) in
        let (taken, own, other, cells, next, book, symbol_eq) = added_lem in
        let st1 = done.2 in
        let b1 = done.1 in
        let heap = cell-IsHeap st1 cells next in
        let x = cell-Extends st1 cells next in
        let own_side = side_queue st symbol b o.side l in
        let other_side = side_queue st symbol b (opposite o.side) l in
        let q1 : IsQueue st1 (queue o.side b1) =
          subst (IsQueue st1) (sym own)
            (placed-IsQueue st st1 (prices (alloc st o)) o.side (queue o.side b) next own_side) in
        let q2 : IsQueue st1 (queue (opposite o.side) b1) =
          subst (IsQueue st1) (sym other) (IsQueue-extend st st1 _ x other_side) in
        let both = both_sides st1 b1 o.side q1 q2 in
        let met : opposite_orders b1 (st1.cell st.next).side ≡ queue (opposite o.side) b =
          ap (opposite_orders b1) (new_side st1 cells) ∙ opposite-queue b1 o.side ∙ other in
        record {
          taken = taken;
          listing = record { same_symbol = symbol_eq; book = book; bids = both.0; asks = both.1 };
          heap = heap;
          extends = x;
          matchable = record {
            incoming = heap st.next (omega arith);
            resting =
                subst (All (λ r. IsFinite (st1.cell r).quantity)) (sym met)
                  (All-map (λ r lt. heap r (x.grown r lt)) _ other_side.allocated);
            distinct = subst Distinct (sym met) other_side.distinct;
            outside =
                subst (All (λ r. r ≢ st.next)) (sym met)
                  (All-map (λ r lt same. omega arith) _ other_side.allocated);
          };
        }
