-- ===== src/Pipeline/Process.antt =====
-- Every message keeps the engine sane, so that what is proved of addOrder and matchOrder applies to
-- every order that is submitted.
use live_trading_engine.Common.{
  ℕ, ◌≡◌, refl, ap, ◌∙◌, subst, inl, inr, Bool-cases, Option-cases, Bool, true, false, not, some,
  List, [], ◌∷◌, arith, Text, if◌then◌else◌,
}
use live_trading_engine.Common.Double.{Double, nought, IsNum, IsFinite, IsIeee}
use live_trading_engine.Common.Json.{Json, JsonLibrary}
use live_trading_engine.Common.Result.{Result-cases, ok, Failure, bad_json, invalid_argument}
use live_trading_engine.Order.{Order, OrderType, market, limit, stop, make_order}
use live_trading_engine.Order.Store.{Store, alloc}
use live_trading_engine.OrderBook.{OrderBook, new_book, add_order}
use live_trading_engine.Matching.{Engine, get_order_book, add_order_book, match_order}
use live_trading_engine.Matching.Keeps.{match_order-IsKept}
use live_trading_engine.Pipeline.Keeps.{IsFit, add_order-IsAdded}
use live_trading_engine.Pipeline.Sane.{
  IsHeap, IsListing, IsMarket, Extends, IsMarket-extend, IsListing-extend, insert-IsMarket,
  empty-IsListing,
}
use live_trading_engine.Validation.{OrderValidator, validate}
use live_trading_engine.Pipeline.Decode.{
  OrderRequest, read_price, to_order, to_order-parts, read_request,
}
use live_trading_engine.Validation.Rules.{validate_iff, IsPriced}
use live_trading_engine.Pipeline.{
  TradingEngine, LogLevel, log, log_failure, log_trades, find_or_add_book, submit_order,
  accept_order, convert_request, process_request, process_order_from_queue, process_all,
}
use live_trading_engine.Matching.Loop.{Trade}

module _ {ℓ} {W : Type ℓ} ⦃d : Double W⦄ (laws : IsIeee W) where
  priced-IsNum :
      (v : OrderValidator W) (t : OrderType) (p : W)
      → (t ≡ market → IsNum p)
      → IsPriced v t p
      → IsNum p
  priced-IsNum v limit p n h = (laws.le_num v.min_price p h.0).1
  priced-IsNum v market p n h = n refl
  priced-IsNum v stop p n h = (laws.le_num v.min_price p h.0).1

  -- The price of a market order is 0.0.
  read_price-IsNum :
      (lib : JsonLibrary W) (t : OrderType) (j : Json W) (p : W)
      → read_price lib t j ≡ ok p
      → t ≡ market
      → IsNum p
  unfolding read_price
  read_price-IsNum lib limit j p e h = ground arith
  read_price-IsNum lib stop j p e h = ground arith
  read_price-IsNum lib market j p e h =
      subst (λ (x : W). IsNum x) (ground arith)
        (laws.finite_num nought (laws.lit_finite 0 0 (omega arith)))

  to_order-price :
      (lib : JsonLibrary W) (r : OrderRequest W) (o : Order W)
      → to_order lib r ≡ ok o
      → o.type ≡ market
      → IsNum o.price
  unfolding make_order
  to_order-price lib r o e h =
      let (t, x, p, c, k) = to_order-parts lib r o e in
      subst (λ (y : Order W). IsNum y.price) k
        (read_price-IsNum lib t r.json_body p c (ap (λ (y : Order W). y.type) k ∙ h))

module _ {ℓ κ} {W : Type ℓ} {S : Type κ} ⦃d : Double W⦄ where
  -- What holds between messages: every order has a finite quantity, the books are well formed and
  -- hold allocated orders, none twice, and the bounds of the quantities are finite.
  pub record IsSane (s : TradingEngine W S) : Type ℓ where
    pub heap : IsHeap s.store
    pub market : IsMarket s.store s.matching_engine.orderbooks
    pub min_finite : IsFinite s.validator.min_quantity
    pub max_finite : IsFinite s.validator.max_quantity

  pub find_or_add_book-IsListing :
      (st : Store W) (e : Engine W S) (symbol : Text)
      → IsMarket st e.orderbooks
      → let (b, e') = find_or_add_book e symbol in IsListing st symbol b × IsMarket st e'.orderbooks
  unfolding find_or_add_book add_order_book
  find_or_add_book-IsListing st e symbol h = elim (Option-cases (get_order_book e symbol)) [
    | inl n ↦
        rw (n, find_or_add_book)
          (
            empty-IsListing st symbol,
            insert-IsMarket st e.orderbooks symbol (new_book symbol) (empty-IsListing st symbol) h,
          )
    | inr (b, n) ↦ rw (n, find_or_add_book) (h symbol b (unfold get_order_book in n), h)
  ]

  if-IsSane :
      (b : Bool) (x y : TradingEngine W S) → IsSane x → IsSane y → IsSane (if b then x else y)
  if-IsSane true x y hx hy = hx
  if-IsSane false x y hx hy = hy

  log-IsSane :
      (level : LogLevel) (m : Text) (s : TradingEngine W S) → IsSane s → IsSane (log level m s)
  unfolding log
  log-IsSane level m s h = record {
    heap = h.heap;
    market = h.market;
    min_finite = h.min_finite;
    max_finite = h.max_finite;
  }

  log_failure-IsSane : (f : Failure) (s : TradingEngine W S) → IsSane s → IsSane (log_failure f s)
  unfolding log_failure
  log_failure-IsSane (bad_json what) s h = log-IsSane _ _ s h
  log_failure-IsSane (invalid_argument what) s h = log-IsSane _ _ s h

  log_trades-IsSane :
      (id : Text) (ts : List (Trade W)) (s : TradingEngine W S)
      → IsSane s
      → IsSane (log_trades id ts s)
  unfolding log_trades
  log_trades-IsSane id [] s h = h
  log_trades-IsSane id (t ∷ ts) s h = log-IsSane _ _ s h

  -- `matchOrder` on an added order.
  matched-IsMarket :
      (st st' : Store W) (e e' : Engine W S) (symbol : Text) (b b' : OrderBook W)
      → Extends st st'
      → b' ≡ b
      → e'.orderbooks ≡ e.orderbooks
      → IsListing st symbol b
      → IsMarket st e.orderbooks
      → IsMarket st' (add_order_book e' symbol b').orderbooks
  unfolding add_order_book
  matched-IsMarket st st' e e' symbol b b' x eb ee l h =
      rw (eb, ee)
        (insert-IsMarket st' e.orderbooks symbol b (IsListing-extend st st' symbol b x l)
          (IsMarket-extend st st' e.orderbooks x h))

  module _ (laws : IsIeee W) (clock : ℕ → ℕ) where
    submit_order-IsSane :
        (s : TradingEngine W S) (o : Order W) → IsFit o → IsSane s → IsSane (submit_order clock s o)
    unfolding submit_order
    submit_order-IsSane s o fit h =
        let (b, e) = find_or_add_book s.matching_engine o.symbol in
        let (l, m) = find_or_add_book-IsListing s.store s.matching_engine o.symbol h.market in
        let added = add_order-IsAdded laws s.store o.symbol b o fit refl l h.heap in
        let st1 = (add_order (alloc s.store o) b (some s.store.next)).2 in
        let b1 = (add_order (alloc s.store o) b (some s.store.next)).1 in
        let out = match_order clock e st1 b1 s.store.next in
        let kept = match_order-IsKept clock e st1 b1 s.store.next laws added.matchable in
        let x : Extends st1 out.2 = record {
          grown = λ r lt. omega (arith, kept.next);
          priced = λ r lt. kept.priced r;
        } in
        let m1 = IsMarket-extend s.store st1 e.orderbooks added.extends m in
        rw added.taken (
          log_trades-IsSane o.id out.0 _ (record {
            heap = λ r lt. kept.finite r (added.heap r (omega (arith, kept.next)));
            market =
                matched-IsMarket st1 out.2 e out.1 o.symbol b1 out.3 x kept.book kept.orderbooks
                  added.listing m1;
            min_finite = h.min_finite;
            max_finite = h.max_finite;
          }))

    valid-IsFit :
        (s : TradingEngine W S) (o : Order W)
        → (o.type ≡ market → IsNum o.price)
        → IsSane s
        → (validate s.validator o).is_valid ≡ true
        → IsFit o
    valid-IsFit s o n h e =
        let (_, _, (lo, hi), p) = (validate_iff s.validator o).0 e in
        record {
          price = priced-IsNum laws s.validator o.type o.price n p;
          quantity =
              laws.finite_between s.validator.min_quantity o.quantity s.validator.max_quantity
                h.min_finite h.max_finite lo hi;
        }

    accept_order-IsSane :
        (s : TradingEngine W S) (o : Order W)
        → (o.type ≡ market → IsNum o.price)
        → IsSane s
        → IsSane (accept_order clock s o)
    unfolding accept_order
    accept_order-IsSane s o n h = elim (Bool-cases (validate s.validator o).is_valid) [
      | inl e ↦ rw e (submit_order-IsSane s o (valid-IsFit s o n h e) h)
      | inr e ↦ rw e (log-IsSane _ _ s h)
    ]

    convert_request-IsSane :
        (lib : JsonLibrary W) (s : TradingEngine W S) (r : OrderRequest W)
        → IsSane s
        → IsSane (convert_request clock lib s r)
    unfolding convert_request
    convert_request-IsSane lib s r h = elim (Result-cases (to_order lib r)) [
      | inl (o, e) ↦
          rw (e, convert_request) (accept_order-IsSane s o (to_order-price laws lib r o e) h)
      | inr (f, e) ↦ rw (e, convert_request) (log_failure-IsSane f s h)
    ]

    process_request-IsSane :
        (lib : JsonLibrary W) (s : TradingEngine W S) (value : Text)
        → IsSane s
        → IsSane (process_request clock lib s value)
    unfolding process_request
    process_request-IsSane lib s value h = elim (Result-cases (read_request lib value)) [
      | inl (r, g) ↦ rw (g, process_request) (convert_request-IsSane lib _ r (log-IsSane _ _ s h))
      | inr (f, g) ↦ rw (g, process_request) (log_failure-IsSane f s h)
    ]

    process_order_from_queue-IsSane :
        (lib : JsonLibrary W) (s : TradingEngine W S) (value : Text)
        → IsSane s
        → IsSane (process_order_from_queue clock lib s value)
    unfolding process_order_from_queue
    process_order_from_queue-IsSane lib s value h =
        if-IsSane (not s.trading_active) _ _ (log-IsSane _ _ s h)
          (process_request-IsSane lib s value h)

    -- Whatever messages come, the engine stays sane: the books are well formed and hold allocated
    -- orders, none twice, and the quantity of every order is finite.
    pub process_all-IsSane :
        (lib : JsonLibrary W) (s : TradingEngine W S) (messages : List Text)
        → IsSane s
        → IsSane (process_all clock lib s messages)
    unfolding process_all
    process_all-IsSane lib s [] h = h
    process_all-IsSane lib s (m ∷ ms) h =
        process_all-IsSane lib (process_order_from_queue clock lib s m) ms
          (process_order_from_queue-IsSane lib s m h)
