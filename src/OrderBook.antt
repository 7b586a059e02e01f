-- ===== src/OrderBook.antt =====
-- include/trading/core/orderbook.hpp and src/core/orderbook.cpp.
pub mod Ladder
pub mod Push
pub mod Books
use live_trading_engine.Common.{
  ℕ, ◌≡◌, Bool, true, false, Option, none, some, List, [], ◌∷◌, if◌then◌else◌, not, Text, text_eq,
  codes,
}
use live_trading_engine.Common.Double.{Double, nought}
use live_trading_engine.Order.{Order, OrderSide, buy, sell, pending, set_status}
use live_trading_engine.Order.Store.{Store, write}
use live_trading_engine.Common.Json.{Json, num, text, arr, obj, items, fields}
use Ladder.{Levels, push_level, flatten, side_before}

pub record OrderBook {ℓ} (W : Type ℓ) : Type ℓ where
  pub symbol : Text
  pub buy_orders : Levels W
  pub sell_orders : Levels W

unfoldable pub new_book {ℓ} : {W : Type ℓ} → Text → OrderBook W
new_book symbol = record { symbol = symbol; buy_orders = []; sell_orders = [] }

module _ {ℓ} {W : Type ℓ} where
  unfoldable pub get_buy_orders : OrderBook W → List ℕ
  get_buy_orders b = flatten b.buy_orders

  unfoldable pub get_sell_orders : OrderBook W → List ℕ
  get_sell_orders b = flatten b.sell_orders

  -- Removal and lookup are not implemented: they ignore the id.
  unfoldable pub remove_order : OrderBook W → Text → Bool × OrderBook W
  remove_order b order_id = (false, b)

  unfoldable pub find_order : OrderBook W → Text → Option ℕ
  find_order b order_id = none

module _ {ℓ} {W : Type ℓ} ⦃d : Double W⦄ where
  unfoldable pub push_side : OrderBook W → OrderSide → W → ℕ → OrderBook W
  push_side b buy p r = record b { buy_orders = push_level (side_before buy) p r b.buy_orders }
  push_side b sell p r = record b { sell_orders = push_level (side_before sell) p r b.sell_orders }

  -- `none` is the null pointer. The result is whether the order was taken, the book and the heap.
  unfoldable pub add_order : Store W → OrderBook W → Option ℕ → Bool × OrderBook W × Store W
  unfolding push_side write set_status
  add_order st b none = (false, b, st)
  add_order st b (some r) =
      let o = st.cell r in
      if not (text_eq o.symbol b.symbol)
      then (false, b, st)
      else (true, push_side b o.side o.price r, write st r (set_status o pending))

  unfoldable pub first_price : Levels W → W
  first_price [] = nought
  first_price ((p, rs) ∷ m) = p

  unfoldable pub get_best_bid : OrderBook W → W
  unfolding first_price
  get_best_bid b = first_price b.buy_orders

  unfoldable pub get_best_ask : OrderBook W → W
  unfolding first_price
  get_best_ask b = first_price b.sell_orders

  unfoldable pub get_spread : OrderBook W → W
  unfolding get_best_ask get_best_bid
  get_spread b = d.sub (get_best_ask b) (get_best_bid b)

  -- `total_quantity += order->getQuantity()` over a level.
  unfoldable pub total_quantity : Store W → W → List ℕ → W
  total_quantity st acc [] = acc
  total_quantity st acc (r ∷ rs) = total_quantity st (d.add acc (st.cell r).quantity) rs

  level_json : Store W → W → List ℕ → Json W
  unfolding total_quantity
  level_json st p rs =
      obj (
        fields
          ((codes "price", num p) ∷ (codes "quantity", num (total_quantity st nought rs)) ∷ []))

  -- Empty levels are left out.
  unfoldable pub levels_json : Store W → Levels W → List (Json W)
  unfolding level_json
  levels_json st [] = []
  levels_json st ((p, []) ∷ m) = levels_json st m
  levels_json st ((p, r ∷ rs) ∷ m) = level_json st p (r ∷ rs) ∷ levels_json st m

  -- `dump` is the library's text of a JSON value.
  unfoldable pub to_json : (Json W → Text) → Store W → OrderBook W → Text
  unfolding levels_json get_best_bid get_best_ask get_spread
  to_json dump st b = dump (
      obj (
        fields (
          (codes "symbol", text b.symbol)
          ∷ (codes "bids", arr (items (levels_json st b.buy_orders)))
          ∷ (codes "asks", arr (items (levels_json st b.sell_orders)))
          ∷ (codes "best_bid", num (get_best_bid b))
          ∷ (codes "best_ask", num (get_best_ask b))
          ∷ (codes "spread", num (get_spread b))
          ∷ [])))
