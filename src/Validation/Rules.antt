-- ===== src/Validation/Rules.antt =====
-- The rules that an order has to obey, against OrderValidator::validate.
use live_trading_engine.Common.{
  has_text, ◌≡◌, ◌≢◌, ◌↔◌, ◌⊎◌, refl, true, false, List, [], ◌∷◌, arith, Text, false_iff,
  text_eq_iff,
}
use live_trading_engine.Common.Double.{Double, ◌≼◌}
use live_trading_engine.Order.{Order, OrderType, market, limit, stop}
use live_trading_engine.Validation.{
  OrderValidator, none, market_closed, invalid_symbol, invalid_quantity, invalid_price, is_listed,
  is_valid_symbol, is_valid_quantity, is_valid_price, validate_symbol, validate_quantity,
  validate_price, validate,
}

-- The symbol is on the list, or the list is empty and the symbol is not.
abbrev pub IsIn : Text → List Text → Type 0
IsIn t [] = ⊥
IsIn t (s ∷ ss) = (s ≡ t) ⊎ IsIn t ss

abbrev pub IsListed : Text → List Text → Type 0
IsListed t [] = t ≢ []
IsListed t (s ∷ ss) = IsIn t (s ∷ ss)

pub has_text_iff : (ss : List Text) (t : Text) → (has_text ss t ≡ true) ↔ IsIn t ss
unfolding has_text
has_text_iff [] t = ground arith
has_text_iff (s ∷ ss) t = ground (arith, text_eq_iff s t, has_text_iff ss t)

pub is_listed_iff : (ss : List Text) (t : Text) → (is_listed ss t ≡ true) ↔ IsListed t ss
unfolding is_listed
is_listed_iff [] [] = (λ e. cc, λ h. elim (h refl) [ ])
is_listed_iff [] (c ∷ cs) = (λ e same. ground arith, λ h. refl)
is_listed_iff (s ∷ ss) t = has_text_iff (s ∷ ss) t

module _ {ℓ} {W : Type ℓ} ⦃d : Double W⦄ where
  -- A limit or stop order has a price within the bounds; that of a market order does not matter.
  abbrev pub IsPriced : OrderValidator W → OrderType → W → Type 0
  IsPriced v market p = Unit
  IsPriced v limit p = (v.min_price ≼ p) × (p ≼ v.max_price)
  IsPriced v stop p = (v.min_price ≼ p) × (p ≼ v.max_price)

  -- The rules for an order.
  abbrev pub IsAcceptable : OrderValidator W → Order W → Type 0
  IsAcceptable v o =
      (v.market_open ≡ true)
      × IsListed o.symbol v.valid_symbols
      × ((v.min_quantity ≼ o.quantity) × (o.quantity ≼ v.max_quantity))
      × IsPriced v o.type o.price

  is_valid_quantity_iff :
      (v : OrderValidator W) (q : W)
      → ((validate_quantity v q).is_valid ≡ true) ↔ ((v.min_quantity ≼ q) × (q ≼ v.max_quantity))
  unfolding validate_quantity is_valid_quantity
  is_valid_quantity_iff v q = ground arith

  is_valid_price_iff :
      (v : OrderValidator W) (t : OrderType) (p : W)
      → ((validate_price v p t).is_valid ≡ true) ↔ IsPriced v t p
  unfolding validate_price is_valid_price
  is_valid_price_iff v market p = ground arith
  is_valid_price_iff v limit p = ground arith
  is_valid_price_iff v stop p = ground arith

  is_valid_symbol_iff :
      (v : OrderValidator W) (t : Text)
      → ((validate_symbol v t).is_valid ≡ true) ↔ IsListed t v.valid_symbols
  unfolding validate_symbol is_valid_symbol
  is_valid_symbol_iff v t = is_listed_iff v.valid_symbols t

  validate-parts :
      (v : OrderValidator W) (o : Order W)
      → ((validate v o).is_valid ≡ true) ↔ (
          (v.market_open ≡ true)
          × ((validate_symbol v o.symbol).is_valid ≡ true)
          × ((validate_quantity v o.quantity).is_valid ≡ true)
          × ((validate_price v o.price o.type).is_valid ≡ true))
  unfolding validate
  validate-parts v o = ground arith

  -- An order passes validation exactly when the market is open, its symbol is listed, its quantity
  -- is within the bounds, and so is its price unless it is a market order.
  pub validate_iff :
      (v : OrderValidator W) (o : Order W) → ((validate v o).is_valid ≡ true) ↔ IsAcceptable v o
  validate_iff v o =
      let h = validate-parts v o in
      let s = is_valid_symbol_iff v o.symbol in
      let q = is_valid_quantity_iff v o.quantity in
      let p = is_valid_price_iff v o.type o.price in
      (
        λ e. let (a, b, c, k) = h.0 e in (a, s.0 b, q.0 c, p.0 k),
        λ (a, b, c, k). h.1 (a, s.1 b, q.1 c, p.1 k),
      )

  errors-parts :
      (v : OrderValidator W) (o : Order W)
      → (((validate v o).error ≡ none) ↔ ((validate v o).is_valid ≡ true))
        × (((validate v o).error ≡ market_closed) ↔ (v.market_open ≡ false))
        × (((validate v o).error ≡ invalid_symbol)
            ↔ ((v.market_open ≡ true) × ((validate_symbol v o.symbol).is_valid ≡ false)))
        × (((validate v o).error ≡ invalid_quantity) ↔ (
            (v.market_open ≡ true)
            × ((validate_symbol v o.symbol).is_valid ≡ true)
            × ((validate_quantity v o.quantity).is_valid ≡ false)))
        × (((validate v o).error ≡ invalid_price) ↔ (
            (v.market_open ≡ true)
            × ((validate_symbol v o.symbol).is_valid ≡ true)
            × ((validate_quantity v o.quantity).is_valid ≡ true)
            × ((validate_price v o.price o.type).is_valid ≡ false)))
  unfolding validate validate_symbol validate_quantity validate_price
  errors-parts v o = ground arith

  -- The error names the first rule that is broken, in the order: closed market, symbol, quantity,
  -- price; there is none exactly when the order passes.
  pub validate-error :
      (v : OrderValidator W) (o : Order W)
      → (((validate v o).error ≡ none) ↔ IsAcceptable v o)
        × (((validate v o).error ≡ market_closed) ↔ (v.market_open ≡ false))
        × (((validate v o).error ≡ invalid_symbol)
            ↔ ((v.market_open ≡ true) × (¬ IsListed o.symbol v.valid_symbols)))
        × (((validate v o).error ≡ invalid_quantity) ↔ (
            (v.market_open ≡ true)
            × IsListed o.symbol v.valid_symbols
            × (¬ ((v.min_quantity ≼ o.quantity) × (o.quantity ≼ v.max_quantity)))))
        × (((validate v o).error ≡ invalid_price) ↔ (
            (v.market_open ≡ true)
            × IsListed o.symbol v.valid_symbols
            × ((v.min_quantity ≼ o.quantity) × (o.quantity ≼ v.max_quantity))
            × (¬ IsPriced v o.type o.price)))
  validate-error v o =
      let (n, c, es, eq, ep) = errors-parts v o in
      let all = validate_iff v o in
      let s = is_valid_symbol_iff v o.symbol in
      let q = is_valid_quantity_iff v o.quantity in
      let p = is_valid_price_iff v o.type o.price in
      let ns = false_iff (validate_symbol v o.symbol).is_valid s in
      let nq = false_iff (validate_quantity v o.quantity).is_valid q in
      let np = false_iff (validate_price v o.price o.type).is_valid p in
      (
        (λ h. all.0 (n.0 h), λ h. n.1 (all.1 h)),
        c,
        (λ h. let (a, b) = es.0 h in (a, ns.0 b), λ (a, b). es.1 (a, ns.1 b)),
        (λ h. let (a, b, f) = eq.0 h in (a, s.0 b, nq.0 f), λ (a, b, f). eq.1 (a, s.1 b, nq.1 f)),
        (
          λ h. let (a, b, f, g) = ep.0 h in (a, s.0 b, q.0 f, np.0 g),
          λ (a, b, f, g). ep.1 (a, s.1 b, q.1 f, np.1 g),
        ),
      )
