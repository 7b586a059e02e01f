-- ===== src/Pipeline/Encoded.antt =====
-- The JSON object that stands for an order, written without the program's reader, and what the
-- program makes of it.
use live_trading_engine.Common.{
  ℕ, ◌≡◌, refl, sym, ap, ◌∙◌, subst, ◌⊎◌, inl, inr, true, some, ◌++◌, Text, codes,
}
use live_trading_engine.Common.Members.{at_key-some}
use live_trading_engine.Common.Double.{Double, nought}
use live_trading_engine.Common.Json.{
  Json, int, num, text, obj, Fields, member, JsonLibrary, as_text, as_double,
}
use live_trading_engine.Common.Result.{ok}
use live_trading_engine.Order.{
  Order, OrderType, limit, market, stop, make_order, order_type_to_string, order_side_to_string,
}
use live_trading_engine.Validation.Rules.{IsAcceptable}
use live_trading_engine.Pipeline.Decode.{
  text_at, double_at, read_request, read_price, to_order, string_to_order_type_iff,
  string_to_order_side_iff,
}
use live_trading_engine.Pipeline.{TradingEngine, info, log, submit_order, process_order_from_queue}
use live_trading_engine.Pipeline.Effects.{decode, IsUntouched, refused-IsUntouched, decoded-submits}

module _ {ℓ} {W : Type ℓ} where
  abbrev HasText : Fields W → Text → Text → Type ℓ
  HasText m k t = member m k ≡ some (text t)

module _ {ℓ} {W : Type ℓ} ⦃d : Double W⦄ where
  -- An integer, or a number with a fraction.
  abbrev IsNumber : Json W → W → Type ℓ
  IsNumber j x = (j ≡ num x) ⊎ ((n : ℕ) × (j ≡ int n) × (d.lit n 0 ≡ x))

  abbrev HasNumber : Fields W → Text → W → Type ℓ
  HasNumber m k x = (j : Json W) × (member m k ≡ some j) × IsNumber j x

  -- A market order needs no price, and has the price 0.0.
  abbrev HasPrice : Fields W → OrderType → W → Type ℓ
  HasPrice m market x = x ≡ nought
  HasPrice m limit x = HasNumber m (codes "price") x
  HasPrice m stop x = HasNumber m (codes "price") x

  -- The members say what the order is; it is new. Other members may be there.
  pub record IsEncoding (o : Order W) (j : Json W) : Type ℓ where
    pub m : Fields W
    pub object : j ≡ obj m
    pub id : HasText m (codes "id") o.id
    pub user_id : HasText m (codes "userId") o.user_id
    pub symbol : HasText m (codes "symbol") o.symbol
    pub type : HasText m (codes "type") (order_type_to_string o.type)
    pub side : HasText m (codes "side") (order_side_to_string o.side)
    pub quantity : HasNumber m (codes "quantity") o.quantity
    pub price : HasPrice m o.type o.price
    pub new : make_order o.id o.user_id o.symbol o.type o.side o.quantity o.price ≡ o

  module _ (lib : JsonLibrary W) (m : Fields W) where
    text_at-some : (k t : Text) → HasText m k t → text_at lib (obj m) k ≡ ok t
    unfolding text_at as_text
    text_at-some k t e = rw (at_key-some m k lib (text t) e, text_at) refl

    double_at-some : (k : Text) (x : W) → HasNumber m k x → double_at lib (obj m) k ≡ ok x
    unfolding double_at as_double
    double_at-some k x (j, e, inl n) = rw (at_key-some m k lib j e, n, double_at) refl
    double_at-some k x (j, e, inr (n, i, l)) = rw (at_key-some m k lib j e, i, double_at) (ap ok l)

    read_price-some : (t : OrderType) (x : W) → HasPrice m t x → read_price lib t (obj m) ≡ ok x
    unfolding read_price
    read_price-some market x e = rw e refl
    read_price-some limit x e = double_at-some (codes "price") x e
    read_price-some stop x e = double_at-some (codes "price") x e

  decode-IsEncoding :
      (lib : JsonLibrary W) (value : Text) (o : Order W) (j : Json W)
      → lib.parse value ≡ ok j
      → IsEncoding o j
      → decode lib value ≡ ok o
  unfolding decode read_request to_order
  decode-IsEncoding lib value o j e h =
      rw
        (
          e ∙ ap ok h.object,
          text_at-some lib h.m (codes "id") o.id h.id,
          text_at-some lib h.m (codes "userId") o.user_id h.user_id,
          text_at-some lib h.m (codes "symbol") o.symbol h.symbol,
          text_at-some lib h.m (codes "type") _ h.type,
          text_at-some lib h.m (codes "side") _ h.side,
          double_at-some lib h.m (codes "quantity") o.quantity h.quantity,
          (string_to_order_type_iff _ o.type).1 refl,
          (string_to_order_side_iff _ o.side).1 refl,
          read_price-some lib h.m o.type o.price h.price,
          decode,
        )
        (ap ok h.new)

module _ {ℓ κ} {W : Type ℓ} {S : Type κ} ⦃d : Double W⦄ where
  -- While trading is active, a message whose JSON object has the id, user, symbol, type, side and
  -- quantity of a new order, and its price unless it is a market order, submits exactly that order if
  -- the order is acceptable, and touches neither the books, nor the users, nor any order if it is
  -- not. The type and the side are in the words that the program prints them with.
  pub process_order_from_queue_lem :
      (clock : ℕ → ℕ) (lib : JsonLibrary W) (s : TradingEngine W S) (value : Text) (o : Order W)
      (j : Json W)
      → s.trading_active ≡ true
      → lib.parse value ≡ ok j
      → IsEncoding o j
      → (IsAcceptable s.validator o
          → process_order_from_queue clock lib s value
            ≡ submit_order clock (log info (codes "Processing order from queue: " ++ o.id) s) o)
        × (¬ IsAcceptable s.validator o
            → IsUntouched s (process_order_from_queue clock lib s value))
  process_order_from_queue_lem clock lib s value o j active e h =
      let k = decode-IsEncoding lib value o j e h in
      (
        decoded-submits clock lib s value o active k,
        λ n. refused-IsUntouched clock lib s value λ _ o' k' a.
            let both : ok o' ≡ ok o = sym k' ∙ k in
            let same : o' ≡ o = cc both in n (subst (IsAcceptable s.validator) same a),
      )
