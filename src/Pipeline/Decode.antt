-- ===== src/Pipeline/Decode.antt =====
-- apps/trading_engine/main.cpp: the strings of the enumerations and the fields of an order request.
use live_trading_engine.Common.{
  ◌≡◌, ◌↔◌, inl, inr, arith, ◌++◌, if◌then◌else◌, Text, text_eq, text_eq_iff, codes,
}
use live_trading_engine.Common.Double.{Double, nought}
use live_trading_engine.Common.Json.{Json, JsonLibrary, at_key, as_text, as_double}
use live_trading_engine.Common.Result.{Result, Result-cases, ok, err, invalid_argument, ◌>>=◌}
use live_trading_engine.Order.{
  Order, OrderType, limit, market, stop, OrderSide, buy, sell, make_order, order_type_to_string,
  order_side_to_string,
}

unfoldable pub string_to_order_type : Text → Result OrderType
string_to_order_type type_str =
    if text_eq type_str (codes "LIMIT")
    then ok limit
    else if text_eq type_str (codes "MARKET")
    then ok market
    else if text_eq type_str (codes "STOP")
    then ok stop
    else err (invalid_argument (codes "Invalid order type string: " ++ type_str))

unfoldable pub string_to_order_side : Text → Result OrderSide
string_to_order_side side_str =
    if text_eq side_str (codes "BUY")
    then ok buy
    else if text_eq side_str (codes "SELL")
    then ok sell
    else err (invalid_argument (codes "Invalid order side string: " ++ side_str))

-- What is read before the first log line, and the body for the price.
pub record OrderRequest {ℓ} (W : Type ℓ) : Type ℓ where
  pub id : Text
  pub user_id : Text
  pub symbol : Text
  pub type_str : Text
  pub side_str : Text
  pub quantity : W
  pub json_body : Json W

module _ {ℓ} {W : Type ℓ} ⦃d : Double W⦄ (lib : JsonLibrary W) where
  unfoldable pub text_at : Json W → Text → Result Text
  text_at j k = do v ← at_key lib j k; as_text lib v

  unfoldable pub double_at : Json W → Text → Result W
  double_at j k = do v ← at_key lib j k; as_double lib v

  unfoldable pub read_request : Text → Result (OrderRequest W)
  read_request value = do
    json_body ← lib.parse value
    id ← text_at json_body (codes "id")
    user_id ← text_at json_body (codes "userId")
    symbol ← text_at json_body (codes "symbol")
    type_str ← text_at json_body (codes "type")
    side_str ← text_at json_body (codes "side")
    quantity ← double_at json_body (codes "quantity")
    ok (record {
      id = id;
      user_id = user_id;
      symbol = symbol;
      type_str = type_str;
      side_str = side_str;
      quantity = quantity;
      json_body = json_body;
    })

  -- A market order has no price.
  unfoldable pub read_price : OrderType → Json W → Result W
  read_price market j = ok nought
  read_price limit j = double_at j (codes "price")
  read_price stop j = double_at j (codes "price")

  unfoldable pub to_order : OrderRequest W → Result (Order W)
  to_order r = do
    type ← string_to_order_type r.type_str
    side ← string_to_order_side r.side_str
    price ← read_price type r.json_body
    ok (make_order r.id r.user_id r.symbol type side r.quantity price)

pub string_to_order_type_iff :
    (s : Text) (t : OrderType) → (string_to_order_type s ≡ ok t) ↔ (s ≡ order_type_to_string t)
unfolding string_to_order_type order_type_to_string
string_to_order_type_iff s limit = ground (arith, text_eq_iff s (codes "LIMIT"))
string_to_order_type_iff s market =
    ground (arith, text_eq_iff s (codes "LIMIT"), text_eq_iff s (codes "MARKET"))
string_to_order_type_iff s stop = ground (
  arith,
  text_eq_iff s (codes "LIMIT"),
  text_eq_iff s (codes "MARKET"),
  text_eq_iff s (codes "STOP"),
)

pub string_to_order_side_iff :
    (s : Text) (x : OrderSide) → (string_to_order_side s ≡ ok x) ↔ (s ≡ order_side_to_string x)
unfolding string_to_order_side order_side_to_string
string_to_order_side_iff s buy = ground (arith, text_eq_iff s (codes "BUY"))
string_to_order_side_iff s sell =
    ground (arith, text_eq_iff s (codes "BUY"), text_eq_iff s (codes "SELL"))

-- A string is read as a type, or a side, exactly when it is what that type, or side, prints as.
strings_iff :
    (s : Text)
    → ((t : OrderType) → (string_to_order_type s ≡ ok t) ↔ (s ≡ order_type_to_string t))
      × ((x : OrderSide) → (string_to_order_side s ≡ ok x) ↔ (s ≡ order_side_to_string x))
strings_iff s = (string_to_order_type_iff s, string_to_order_side_iff s)

module _ {ℓ} {W : Type ℓ} ⦃d : Double W⦄ (lib : JsonLibrary W) where
  -- The order of a request is made of its parts.
  pub to_order-parts :
      (r : OrderRequest W) (o : Order W)
      → to_order lib r ≡ ok o
      → (t : OrderType) × (x : OrderSide) × (p : W) × (read_price lib t r.json_body ≡ ok p)
        × (make_order r.id r.user_id r.symbol t x r.quantity p ≡ o)
  unfolding to_order
  to_order-parts r o e = elim (Result-cases (string_to_order_type r.type_str)) [
    | inr (f, a) ↦ cc (rw (a, to_order) at e)
    | inl (t, a) ↦ elim (Result-cases (string_to_order_side r.side_str)) [
      | inr (f, b) ↦ cc (rw (a, b, to_order) at e)
      | inl (x, b) ↦ elim (Result-cases (read_price lib t r.json_body)) [
        | inr (f, c) ↦ cc (rw (a, b, c, to_order) at e)
        | inl (p, c) ↦ (t, x, p, c, cc (rw (a, b, c, to_order) at e))
      ]
    ]
  ]
