-- ===== src/Pipeline/Effects.antt =====
-- What a message does: it is skipped, refused, or submitted as the order that it encodes.
use live_trading_engine.Common.{
  ℕ, ◌≡◌, refl, ap, ◌∙◌, inl, inr, true, not, some, List, [], ◌∷◌, ◌++◌, arith, Text, codes,
  if-split, ==_iff,
}
use live_trading_engine.Common.Dict.{lookup, lookup-insert_self}
use live_trading_engine.Common.Double.{Double, IsIeee}
use live_trading_engine.Common.Json.{JsonLibrary}
use live_trading_engine.Common.Result.{
  Result, Result-cases, ok, Failure, bad_json, invalid_argument, ◌>>=◌,
}
use live_trading_engine.Order.{Order, pending, set_status, make_order}
use live_trading_engine.Order.Store.{Store, alloc}
use live_trading_engine.OrderBook.{OrderBook, add_order}
use live_trading_engine.OrderBook.Ladder.{place, side_before}
use live_trading_engine.OrderBook.Books.{queue, prices}
use live_trading_engine.Matching.{Engine, add_order_book, match_order}
use live_trading_engine.Matching.Loop.{Trade}
use live_trading_engine.Matching.Keeps.{match_order-IsKept}
use live_trading_engine.Validation.{validate}
use live_trading_engine.Validation.Rules.{IsAcceptable, validate_iff}
use live_trading_engine.Pipeline.Decode.{OrderRequest, read_request, to_order, to_order-parts}
use live_trading_engine.Pipeline.Keeps.{IsFit, added_lem, add_order-IsAdded}
use live_trading_engine.Pipeline.Process.{IsSane, find_or_add_book-IsListing}
use live_trading_engine.Pipeline.{
  TradingEngine, info, log, log_failure, log_trades, find_or_add_book, submit_order, accept_order,
  convert_request, process_request, process_order_from_queue,
}

module _ {ℓ} {W : Type ℓ} ⦃d : Double W⦄ where
  -- The order that a message encodes.
  unfoldable pub decode : JsonLibrary W → Text → Result (Order W)
  decode lib value = do r ← read_request lib value; to_order lib r

  to_order-id :
      (lib : JsonLibrary W) (r : OrderRequest W) (o : Order W) → to_order lib r ≡ ok o → r.id ≡ o.id
  unfolding make_order
  to_order-id lib r o e =
      let (_, _, _, _, k) = to_order-parts lib r o e in ap (λ (y : Order W). y.id) k

module _ {ℓ κ} {W : Type ℓ} {S : Type κ} ⦃d : Double W⦄ where
  -- Neither the books and users nor the orders differ.
  abbrev pub IsUntouched : TradingEngine W S → TradingEngine W S → Type (ℓ ⊔ κ)
  IsUntouched s s' = (s'.matching_engine ≡ s.matching_engine) × (s'.store ≡ s.store)

  log_failure-IsUntouched : (f : Failure) (s : TradingEngine W S) → IsUntouched s (log_failure f s)
  unfolding log_failure log
  log_failure-IsUntouched (bad_json what) s = (refl, refl)
  log_failure-IsUntouched (invalid_argument what) s = (refl, refl)

  log_trades-IsUntouched :
      (id : Text) (ts : List (Trade W)) (s : TradingEngine W S) → IsUntouched s (log_trades id ts s)
  unfolding log_trades log
  log_trades-IsUntouched id [] s = (refl, refl)
  log_trades-IsUntouched id (t ∷ ts) s = (refl, refl)

  module _ (clock : ℕ → ℕ) (lib : JsonLibrary W) where
    accept_order-IsUntouched :
        (s : TradingEngine W S) (o : Order W)
        → ¬ IsAcceptable s.validator o
        → IsUntouched s (accept_order clock s o)
    unfolding accept_order log
    accept_order-IsUntouched s o n =
        if-split (IsUntouched s) (not (validate s.validator o).is_valid) _ _ (λ e. (refl, refl))
          λ e. absurd (n ((validate_iff s.validator o).0 (ground (arith, e))))

    accept_order-submits :
        (s : TradingEngine W S) (o : Order W)
        → IsAcceptable s.validator o
        → accept_order clock s o ≡ submit_order clock s o
    unfolding accept_order
    accept_order-submits s o a =
        if-split (λ x. x ≡ submit_order clock s o) (not (validate s.validator o).is_valid) _ _
          (λ e. let k = (validate_iff s.validator o).1 a in absurd (ground arith)) λ e. refl

    convert_request-IsUntouched :
        (s : TradingEngine W S) (r : OrderRequest W)
        → ((o : Order W) → to_order lib r ≡ ok o → ¬ IsAcceptable s.validator o)
        → IsUntouched s (convert_request clock lib s r)
    unfolding convert_request
    convert_request-IsUntouched s r n = elim (Result-cases (to_order lib r)) [
      | inl (o, e) ↦ rw (e, convert_request) (accept_order-IsUntouched s o (n o e))
      | inr (f, e) ↦ rw (e, convert_request) (log_failure-IsUntouched f s)
    ]

    process_request-IsUntouched :
        (s : TradingEngine W S) (value : Text)
        → ((o : Order W) → decode lib value ≡ ok o → ¬ IsAcceptable s.validator o)
        → IsUntouched s (process_request clock lib s value)
    unfolding process_request decode log
    process_request-IsUntouched s value n = elim (Result-cases (read_request lib value)) [
      | inl (r, e) ↦
          rw (e, process_request)
            (convert_request-IsUntouched
              (log info (codes "Processing order from queue: " ++ r.id) s) r
              (λ o g. n o (rw (e, decode) g)))
      | inr (f, e) ↦ rw (e, process_request) (log_failure-IsUntouched f s)
    ]

    -- A message that does not encode an acceptable order, or that comes while trading is suspended,
    -- touches neither the books, nor the users, nor any order.
    pub refused-IsUntouched :
        (s : TradingEngine W S) (value : Text)
        → (s.trading_active ≡ true
            → (o : Order W) → decode lib value ≡ ok o
            → ¬ IsAcceptable s.validator o)
        → IsUntouched s (process_order_from_queue clock lib s value)
    unfolding process_order_from_queue log
    refused-IsUntouched s value n =
        if-split (IsUntouched s) (not s.trading_active) _ _ (λ e. (refl, refl))
          λ e. process_request-IsUntouched s value (n (ground arith))

    convert_request-submits :
        (s : TradingEngine W S) (r : OrderRequest W) (o : Order W)
        → to_order lib r ≡ ok o
        → IsAcceptable s.validator o
        → convert_request clock lib s r ≡ submit_order clock s o
    unfolding convert_request
    convert_request-submits s r o e a = rw (e, convert_request) (accept_order-submits s o a)

    process_request-submits :
        (s : TradingEngine W S) (value : Text) (o : Order W)
        → decode lib value ≡ ok o
        → IsAcceptable s.validator o
        → process_request clock lib s value
          ≡ submit_order clock (log info (codes "Processing order from queue: " ++ o.id) s) o
    unfolding process_request decode log
    process_request-submits s value o e a = elim (Result-cases (read_request lib value)) [
      | inr (f, g) ↦ cc (rw (g, decode) at e)
      | inl (r, g) ↦
          let k = rw (g, decode) at e in
          rw (g, process_request)
            (convert_request-submits (log info (codes "Processing order from queue: " ++ r.id) s) r
                o k a
              ∙ ap
                  (λ i.
                    submit_order clock (log info (codes "Processing order from queue: " ++ i) s) o)
                  (to_order-id lib r o k))
    ]

    pub decoded-submits :
        (s : TradingEngine W S) (value : Text) (o : Order W)
        → s.trading_active ≡ true
        → decode lib value ≡ ok o
        → IsAcceptable s.validator o
        → process_order_from_queue clock lib s value
          ≡ submit_order clock (log info (codes "Processing order from queue: " ++ o.id) s) o
    unfolding process_order_from_queue
    decoded-submits s value o active e a =
        if-split
          (λ x.
            x ≡ submit_order clock (log info (codes "Processing order from queue: " ++ o.id) s) o)
          (not s.trading_active) _ _ (λ h. absurd (ground arith))
          λ h. process_request-submits s value o e a

  module _ (clock : ℕ → ℕ) (s : TradingEngine W S) (o : Order W) where
    -- An order that is submitted to a sane engine rests in the book of its symbol, at its place in the
    -- queue of its side, with the whole of its quantity: what it trades at once is not taken from it.
    pub submitted_order_rests :
        IsIeee W
        → IsFit o
        → IsSane s
        → let s' = submit_order clock s o in
          let b = (find_or_add_book s.matching_engine o.symbol).0 in
          (s'.store.cell s.store.next ≡ set_status o pending)
          × ((b' : OrderBook W) × (lookup o.symbol s'.matching_engine.orderbooks ≡ some b')
              × (queue o.side b'
                  ≡ place
                      (side_before o.side)
                      (prices (alloc s.store o))
                      s.store.next
                      (queue o.side b)))
    unfolding submit_order
    submitted_order_rests laws fit h =
        let (b, e) = find_or_add_book s.matching_engine o.symbol in
        let (l, m) = find_or_add_book-IsListing s.store s.matching_engine o.symbol h.market in
        let added = add_order-IsAdded laws s.store o.symbol b o fit refl l h.heap in
        let (_, own, _, cells, _, _, _) = added_lem laws s.store o.symbol b o fit refl l h.heap in
        let st1 = (add_order (alloc s.store o) b (some s.store.next)).2 in
        let b1 = (add_order (alloc s.store o) b (some s.store.next)).1 in
        let out = match_order clock e st1 b1 s.store.next in
        let kept = match_order-IsKept clock e st1 b1 s.store.next laws added.matchable in
        let (engine_same, store_same) =
          log_trades-IsUntouched o.id out.0
            (record s { matching_engine = add_order_book out.1 o.symbol out.3; store = out.2 }) in
        rw added.taken (
          ap (λ (st : Store W). st.cell s.store.next) store_same
              ∙ kept.own
              ∙ cells s.store.next
              ∙ rw ((==_iff s.store.next s.store.next).1 refl) refl,
          (
            out.3,
            ap (λ (x : Engine W S). lookup o.symbol x.orderbooks) engine_same
                ∙ unfold add_order_book in lookup-insert_self o.symbol out.3 out.1.orderbooks,
            ap (queue o.side) kept.book ∙ own,
          ),
        )
