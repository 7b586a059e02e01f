-- ===== src/Matching/Keeps.antt =====
-- What matchOrder leaves as it is: the books, the prices, the finiteness of the quantities.
use live_trading_engine.Common.{
  ℕ, ◌≡◌, refl, ◌∙◌, inl, inr, Bool-cases, Option-cases, Option, none, some, List, [], ◌∷◌, All,
  arith, ◌==◌, ==_iff, subst, Text,
}
use live_trading_engine.Common.Double.{Double, nought, ◌≼◌, ◌≺◌, IsFinite, IsIeee}
use live_trading_engine.Order.{Order, OrderSide, OrderType, limit, market, stop, set_quantity}
use live_trading_engine.Order.Store.{Store, write}
use live_trading_engine.OrderBook.{OrderBook}
use live_trading_engine.Matching.Loop.{Trade, Progress, fill, match_one, match_loop}
use live_trading_engine.Matching.Allocation.{given, after, minus}
use live_trading_engine.Matching.Priority.{IsFair}
use live_trading_engine.Matching.Orders.{CanMatch, fills, fills-IsFair, match_at_lem}
use live_trading_engine.Matching.{
  Engine, match_order, match_typed, match_at, match_limit_order, match_market_order, settle,
  settle_one, update_user_portfolios, execute_for, get_or_create_user, get_user, add_user, notify,
}

module _ {ℓ} {W : Type ℓ} where
  given-All {κ} :
      (P : ℕ × W → Type κ) (fs : List (ℕ × W)) (q : ℕ) (t : W)
      → given fs q ≡ some t
      → All P fs
      → P (q, t)
  unfolding given
  given-All P [] q t e h = ground arith
  given-All P ((r, u) ∷ fs) q t e (p, h) = elim (Bool-cases (r == q)) [
    | inl s ↦
        subst (λ x. P (x, t)) ((==_iff r q).0 s)
          (subst (λ y. P (r, y)) (let k = rw (s, given) at e in cc k) p)
    | inr s ↦ given-All P fs q t (rw (s, given) at e) h
  ]

module _ {ℓ} {W : Type ℓ} ⦃d : Double W⦄ where
  match_one-next :
      (clock : ℕ → ℕ) (o : ℕ) (price : W) (r : ℕ) (s : Progress W)
      → (match_one clock o price r s).store.next ≡ s.store.next
  unfolding match_one fill write
  match_one-next clock o price r s = ground arith

  match_loop-next :
      (clock : ℕ → ℕ) (o : ℕ) (price : W) (rs : List ℕ) (s : Progress W)
      → (match_loop clock o price rs s).store.next ≡ s.store.next
  unfolding match_loop
  match_loop-next clock o price [] s = refl
  match_loop-next clock o price (r ∷ rs) s = elim (Bool-cases (d.le s.remaining nought)) [
    | inl e ↦ rw e refl
    | inr e ↦ rw e (
        match_loop-next clock o price rs (match_one clock o price r s)
        ∙ match_one-next clock o price r s)
  ]

  minus-price : (o : Order W) (g : Option W) → (minus o g).price ≡ o.price
  unfolding set_quantity
  minus-price o none = refl
  minus-price o (some t) = refl

  lt_le : IsIeee W → (x y : W) → x ≺ y → x ≼ y
  lt_le laws x y h =
      let (nx, ny) = laws.lt_num x y h in
      ground (arith, laws.lt-eq-not-le x y nx ny, laws.le_total x y nx ny)

  -- What a fair fill leaves is finite.
  after-finite :
      IsIeee W
      → (side : OrderSide) (price : W) (cell : ℕ → Order W) (fs : List (ℕ × W)) (q : ℕ)
      → All (IsFair side price cell) fs
      → IsFinite (cell q).quantity
      → IsFinite (after fs cell q).quantity
  unfolding set_quantity
  after-finite laws side price cell fs q h f = elim (Option-cases (given fs q)) [
    | inl e ↦ rw e f
    | inr (t, e) ↦
        let (_, pos, le) = given-All (IsFair side price cell) fs q t e h in
        rw e (laws.sub_finite (cell q).quantity t f (lt_le laws nought t pos) le)
  ]

module _ {ℓ κ} {W : Type ℓ} {S : Type κ} ⦃d : Double W⦄ where
  notify-orderbooks : (e : Engine W S) (t : Trade W) → (notify e t).orderbooks ≡ e.orderbooks
  unfolding notify
  notify-orderbooks e t = elim (Option-cases e.trade_callback) [ inl h ↦ rw h | inr (f, h) ↦ rw h ]

  get_or_create_user-orderbooks :
      (e : Engine W S) (k : Text) (x : W) → (get_or_create_user e k x).1.orderbooks ≡ e.orderbooks
  unfolding get_or_create_user add_user
  get_or_create_user-orderbooks e k x = elim (Option-cases (get_user e k)) [
    | inl h ↦ rw (h, get_or_create_user)
    | inr (u, h) ↦ rw (h, get_or_create_user)
  ]

  execute_for-orderbooks :
      (e : Engine W S) (side : OrderSide) (k s : Text) (q p fee : W)
      → (execute_for e side k s q p fee).1.orderbooks ≡ e.orderbooks
  unfolding execute_for
  execute_for-orderbooks e side k s q p fee = elim (Option-cases (get_user e k)) [
    | inl h ↦ rw (h, execute_for)
    | inr (u, h) ↦ rw (h, execute_for)
  ]

  settle-orderbooks :
      (e : Engine W S) (ts : List (Trade W)) → (settle e ts).orderbooks ≡ e.orderbooks
  unfolding settle settle_one update_user_portfolios
  settle-orderbooks e [] = refl
  settle-orderbooks e (t ∷ ts) = rw (
    settle-orderbooks (settle_one e t) ts,
    settle_one,
    notify-orderbooks,
    update_user_portfolios,
    execute_for-orderbooks,
    execute_for-orderbooks,
    get_or_create_user-orderbooks,
    get_or_create_user-orderbooks,
  )

  -- What matching keeps of the heap, the book and the engine.
  pub record IsKept (e : Engine W S) (st : Store W) (b : OrderBook W) (o : ℕ)
      (done : List (Trade W) × Engine W S × Store W × OrderBook W) : Type (ℓ ⊔ κ) where
    pub next : done.2.next ≡ st.next
    pub priced : (q : ℕ) → (done.2.cell q).price ≡ (st.cell q).price
    pub own : done.2.cell o ≡ st.cell o
    pub finite : (q : ℕ) → IsFinite (st.cell q).quantity → IsFinite (done.2.cell q).quantity
    pub book : done.3 ≡ b
    pub orderbooks : done.1.orderbooks ≡ e.orderbooks

  module _ (clock : ℕ → ℕ) (e : Engine W S) (st : Store W) (b : OrderBook W) (o : ℕ) where
    match_at-IsKept :
        IsIeee W → (price : W) → CanMatch st b o → IsKept e st b o (match_at clock e st b o price)
    match_at-IsKept laws price c =
        let (_, cells, own, book) = match_at_lem clock e st b o price c in
        let fair = (fills-IsFair laws st b o price c).0 in
        let fs = fills st b o price in
        record {
          next = unfold match_at in match_loop-next clock o price _ _;
          priced = λ q. rw (cells q) (minus-price (st.cell q) (given fs q));
          finite =
              λ q f. rw (cells q) (after-finite laws (st.cell o).side price st.cell fs q fair f);
          own = own;
          book = book;
          orderbooks = unfold match_at in settle-orderbooks _ _;
        }

    -- Matching keeps the book, the registry of the books, the incoming order, the size of the heap,
    -- every price, and the finiteness of every quantity.
    pub match_order-IsKept :
        IsIeee W → CanMatch st b o → IsKept e st b o (match_order clock e st b o)
    unfolding match_order
    match_order-IsKept laws c = of_type (st.cell o).type
      where
        of_type : (t : OrderType) → IsKept e st b o (match_typed clock t e st b o)
        of_type limit = unfold match_typed match_limit_order in match_at-IsKept laws _ c
        of_type market = unfold match_typed match_market_order in match_at-IsKept laws _ c
        of_type stop =
            unfold match_typed in
            (record {
              next = refl;
              priced = λ q. refl;
              own = refl;
              finite = λ q f. f;
              book = refl;
              orderbooks = refl;
            })
