-- ===== src/Pipeline/Sane.antt =====
-- What the engine keeps true between messages, and why it makes each incoming order matchable.
use live_trading_engine.Common.{
  ℕ, ◌+◌, ◌<◌, ◌≡◌, ◌≢◌, refl, sym, ap, subst, inl, inr, Bool-cases, Bool, some, List, [], ◌∷◌, All,
  All-map, All-map2, All-split, arith, Text, text_eq, text_eq_iff,
}
use live_trading_engine.Common.Dict.{Dict, lookup, insert, lookup-insert}
use live_trading_engine.Common.Double.{Double, IsFinite}
use live_trading_engine.Order.{Order, OrderSide, buy, sell}
use live_trading_engine.Order.Store.{Store, alloc, cell-write_ne}
use live_trading_engine.OrderBook.{OrderBook, new_book, get_buy_orders, get_sell_orders}
use live_trading_engine.OrderBook.Ladder.{Levels, IsLadder, flatten, place, side_before}
use live_trading_engine.OrderBook.Books.{IsBook, queue, prices}
use live_trading_engine.Matching.Allocation.{Distinct}

module _ {ℓ} {W : Type ℓ} (before : W → W → Bool) (price : ℕ → W) where
  -- A property of the newcomer and of the queue holds of the queue with the newcomer.
  All-place {κ} :
      (P : ℕ → Type κ) (r : ℕ) (rs : List ℕ) → P r → All P rs → All P (place before price r rs)
  unfolding place
  All-place P r [] p h = (p, tt)
  All-place P r (x ∷ xs) p (q, h) = elim (Bool-cases (before (price r) (price x))) [
    | inl e ↦ rw e (p, (q, h))
    | inr e ↦ rw e (q, All-place P r xs p h)
  ]

  place-Distinct :
      (r : ℕ) (rs : List ℕ) → All (λ q. q ≢ r) rs → Distinct rs → Distinct (place before price r rs)
  unfolding place
  place-Distinct r [] ne h = (tt, tt)
  place-Distinct r (x ∷ xs) (n, ne) (f, h) = elim (Bool-cases (before (price r) (price x))) [
    | inl e ↦ rw e ((λ same. n (sym same), All-map (λ q k same. k (sym same)) xs ne), (f, h))
    | inr e ↦ rw e (All-place (λ q. x ≢ q) r xs n f, place-Distinct r xs ne h)
  ]

module _ {ℓ} {W : Type ℓ} ⦃d : Double W⦄ where
  -- Every allocated order has a finite quantity.
  abbrev pub IsHeap : Store W → Type 0
  IsHeap st = (r : ℕ) → r < st.next → IsFinite (st.cell r).quantity

  -- A side of a book holds allocated orders, none twice.
  pub record IsQueue (st : Store W) (rs : List ℕ) : Type 0 where
    pub allocated : All (λ r. r < st.next) rs
    pub distinct : Distinct rs

  pub record IsListing (st : Store W) (symbol : Text) (b : OrderBook W) : Type ℓ where
    pub same_symbol : b.symbol ≡ symbol
    pub book : IsBook st b
    pub bids : IsQueue st (queue buy b)
    pub asks : IsQueue st (queue sell b)

  -- All registered books.
  abbrev pub IsMarket : Store W → Dict (OrderBook W) → Type ℓ
  IsMarket st books =
      (symbol : Text) (b : OrderBook W) → lookup symbol books ≡ some b → IsListing st symbol b

  pub insert-IsMarket :
      (st : Store W) (books : Dict (OrderBook W)) (symbol : Text) (b : OrderBook W)
      → IsListing st symbol b
      → IsMarket st books
      → IsMarket st (insert symbol b books)
  insert-IsMarket st books symbol b l h k c e = elim (Bool-cases (text_eq symbol k)) [
    | inl t ↦
        subst (λ x. IsListing st x c) ((text_eq_iff symbol k).0 t)
          (subst (IsListing st symbol) (ground (arith, lookup-insert k symbol b books)) l)
    | inr t ↦ h k c (ground (arith, lookup-insert k symbol b books))
  ]

  -- The ladder only depends on the prices of its own orders.
  IsLadder-congr :
      (s : OrderSide) (p p' : ℕ → W) (m : Levels W)
      → All (λ r. p' r ≡ p r) (flatten m)
      → IsLadder s p m
      → IsLadder s p' m
  unfolding flatten
  IsLadder-congr s p p' [] h l = tt
  IsLadder-congr s p p' ((q, rs) ∷ m) h (nq, ne, hp, hb, lm) =
      let (here, below) = All-split (λ r. p' r ≡ p r) rs (flatten m) h in
      (nq, ne, All-map2 (λ r e k. rw e k) rs here hp, hb, IsLadder-congr s p p' m below lm)

  -- The heap may grow and its orders may change in all but their price.
  pub record Extends (st st' : Store W) : Type ℓ where
    pub grown : (r : ℕ) → r < st.next → r < st'.next
    pub priced : (r : ℕ) → r < st.next → (st'.cell r).price ≡ (st.cell r).price

  pub IsQueue-extend :
      (st st' : Store W) (rs : List ℕ) → Extends st st' → IsQueue st rs → IsQueue st' rs
  IsQueue-extend st st' rs x q = record {
    allocated = All-map x.grown rs q.allocated;
    distinct = q.distinct;
  }

  pub IsListing-extend :
      (st st' : Store W) (symbol : Text) (b : OrderBook W)
      → Extends st st'
      → IsListing st symbol b
      → IsListing st' symbol b
  unfolding get_buy_orders get_sell_orders
  IsListing-extend st st' symbol b x l = record {
    same_symbol = l.same_symbol;
    book = record {
      bids =
          IsLadder-congr buy (prices st) (prices st') b.buy_orders
            (All-map x.priced (flatten b.buy_orders) l.bids.allocated) l.book.bids;
      asks =
          IsLadder-congr sell (prices st) (prices st') b.sell_orders
            (All-map x.priced (flatten b.sell_orders) l.asks.allocated) l.book.asks;
    };
    bids = IsQueue-extend st st' (queue buy b) x l.bids;
    asks = IsQueue-extend st st' (queue sell b) x l.asks;
  }

  pub IsMarket-extend :
      (st st' : Store W) (books : Dict (OrderBook W))
      → Extends st st'
      → IsMarket st books
      → IsMarket st' books
  IsMarket-extend st st' books x h symbol b e = IsListing-extend st st' symbol b x (h symbol b e)

  pub empty-IsListing : (st : Store W) (symbol : Text) → IsListing st symbol (new_book symbol)
  unfolding new_book get_buy_orders get_sell_orders flatten
  empty-IsListing st symbol = record {
    same_symbol = refl;
    book = record { bids = tt; asks = tt };
    bids = record { allocated = tt; distinct = tt };
    asks = record { allocated = tt; distinct = tt };
  }

  pub alloc-Extends : (st : Store W) (o : Order W) → Extends st (alloc st o)
  unfolding alloc
  alloc-Extends st o = record {
    grown = λ r h. omega arith;
    priced =
        λ r h. ap (λ (c : Order W). c.price) (cell-write_ne st st.next r o (λ same. omega arith));
  }

  -- The queue of the new order's side, once the heap has grown by that order.
  pub placed-IsQueue :
      (st st' : Store W) (price : ℕ → W) (s : OrderSide) (rs : List ℕ)
      → st'.next ≡ st.next + 1
      → IsQueue st rs
      → IsQueue st' (place (side_before s) price st.next rs)
  placed-IsQueue st st' price s rs e q = record {
    allocated =
        All-place (side_before s) price (λ r. r < st'.next) st.next rs (omega arith)
          (All-map (λ r h. omega arith) rs q.allocated);
    distinct =
        place-Distinct (side_before s) price st.next rs
          (All-map (λ r h same. omega arith) rs q.allocated) q.distinct;
  }
