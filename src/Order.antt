-- ===== src/Order.antt =====
-- include/trading/core/order.hpp and src/core/order.cpp. Orders live behind `shared_ptr`s that
-- the book and the callers share: `Order.Store` is the heap that holds them.
pub mod Store
use live_trading_engine.Common.{
  ◌≡◌, refl, Bool, true, false, ◌++◌, arith, if◌then◌else◌, Text, codes, decimal, [], Option, none,
  some, text_eq,
}
use live_trading_engine.Common.Double.{Double, nought}

pub data OrderType : Type 0 where
  limit market stop : OrderType

pub data OrderSide : Type 0 where
  buy sell : OrderSide

pub data OrderStatus : Type 0 where
  pending partially_filled filled rejected cancelled : OrderStatus

pub record Order {ℓ} (W : Type ℓ) : Type ℓ where
  pub id : Text
  pub user_id : Text
  pub symbol : Text
  pub type : OrderType
  pub side : OrderSide
  pub quantity : W
  pub price : W
  pub filled_quantity : W
  pub status : OrderStatus

abbrev pub is_buy : OrderSide → Bool
is_buy buy = true
is_buy sell = false

abbrev pub is_market : OrderType → Bool
is_market market = true
is_market _ = false

unfoldable pub order_type_to_string : OrderType → Text
order_type_to_string limit = codes "LIMIT"
order_type_to_string market = codes "MARKET"
order_type_to_string stop = codes "STOP"

unfoldable pub order_side_to_string : OrderSide → Text
order_side_to_string s = if is_buy s then codes "BUY" else codes "SELL"

-- The number of an enumerator, as `static_cast<int>` gives it.
abbrev type_index : OrderType → Text
type_index limit = decimal 0
type_index market = decimal 1
type_index stop = decimal 2

abbrev side_index : OrderSide → Text
side_index buy = decimal 0
side_index sell = decimal 1

module _ {ℓ} {W : Type ℓ} ⦃d : Double W⦄ where
  unfoldable pub default_order : Order W
  default_order = record {
    id = [];
    user_id = [];
    symbol = [];
    type = limit;
    side = buy;
    quantity = nought;
    price = nought;
    filled_quantity = nought;
    status = pending;
  }

  unfoldable pub make_order : Text → Text → Text → OrderType → OrderSide → W → W → Order W
  make_order id user_id symbol type side quantity price = record {
    id = id;
    user_id = user_id;
    symbol = symbol;
    type = type;
    side = side;
    quantity = quantity;
    price = price;
    filled_quantity = nought;
    status = pending;
  }

  unfoldable pub add_fill : Order W → W → Order W
  add_fill o quantity =
      let total = d.add o.filled_quantity quantity in
      record o {
        filled_quantity = total;
        status = if d.le o.quantity total then filled else partially_filled;
      }

  unfoldable pub to_string : Order W → Text
  to_string o =
      codes "Order{id: "
      ++ (o.id
          ++ (codes ", symbol: "
              ++ (o.symbol
                  ++ (codes ", type: "
                      ++ (type_index o.type
                          ++ (codes ", side: "
                              ++ (side_index o.side
                                  ++ (codes ", quantity: "
                                      ++ (d.print o.quantity
                                          ++ (codes ", price: "
                                              ++ (d.print o.price
                                                  ++ (codes ", filled: "
                                                      ++ (d.print o.filled_quantity
                                                          ++ codes "}")))))))))))))

module _ {ℓ} {W : Type ℓ} where
  unfoldable pub set_status : Order W → OrderStatus → Order W
  set_status o status = record o { status = status }

  unfoldable pub set_quantity : Order W → W → Order W
  set_quantity o quantity = record o { quantity = quantity }
