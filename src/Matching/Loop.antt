-- ===== src/Matching/Loop.antt =====
-- The loop of matchMarketOrder and matchLimitOrder over the active orders of the other side.
use live_trading_engine.Common.{
  ℕ, ◌+◌, ◌%◌, ◌^◌, Bool, List, [], ◌∷◌, ◌++◌, if◌then◌else◌, Text, decimal,
}
use live_trading_engine.Common.Double.{Double, nought, min}
use live_trading_engine.Order.{Order, OrderSide, buy, sell, set_quantity}
use live_trading_engine.Order.Store.{Store, write}
use live_trading_engine.OrderBook.{OrderBook, remove_order}

pub record Trade {ℓ} (W : Type ℓ) : Type ℓ where
  pub trade_id : Text
  pub buy_order_id : Text
  pub sell_order_id : Text
  pub buy_user_id : Text
  pub sell_user_id : Text
  pub symbol : Text
  pub quantity : W
  pub price : W
  pub timestamp : ℕ

-- The variables of the loop.
pub record Progress {ℓ} (W : Type ℓ) : Type ℓ where
  pub remaining : W
  pub trades : List (Trade W)
  pub store : Store W
  pub book : OrderBook W
  pub next_trade_id : ℕ

module _ {ℓ} {W : Type ℓ} where
  -- The counter is a uint64_t; it is raised by the loop that calls this.
  unfoldable pub create_trade : (ℕ → ℕ) → ℕ → Order W → Order W → W → W → Trade W
  create_trade clock n buy_order sell_order quantity price = record {
    trade_id = decimal n;
    buy_order_id = buy_order.id;
    sell_order_id = sell_order.id;
    buy_user_id = buy_order.user_id;
    sell_user_id = sell_order.user_id;
    symbol = buy_order.symbol;
    quantity = quantity;
    price = price;
    timestamp = clock n;
  }

  -- The order itself and the opposite one, as buyer and seller.
  abbrev pub buyer : OrderSide → Order W → Order W → Order W
  buyer buy order other = order
  buyer sell order other = other

  abbrev pub seller : OrderSide → Order W → Order W → Order W
  seller buy order other = other
  seller sell order other = order

module _ {ℓ} {W : Type ℓ} ⦃d : Double W⦄ where
  -- Those with a quantity above zero.
  unfoldable pub active_orders : Store W → List ℕ → List ℕ
  active_orders st [] = []
  active_orders st (r ∷ rs) =
      if d.lt nought (st.cell r).quantity then r ∷ active_orders st rs else active_orders st rs

  -- Is the opposite order's price acceptable at `price`?
  abbrev pub accepts : OrderSide → W → W → Bool
  accepts buy price other_price = d.le other_price price
  accepts sell price other_price = d.le price other_price

  unfoldable pub fill : (ℕ → ℕ) → ℕ → W → ℕ → Progress W → Progress W
  unfolding create_trade remove_order set_quantity write
  fill clock o price r s =
      let order = s.store.cell o in
      let other = s.store.cell r in
      let trade_quantity = min s.remaining other.quantity in
      let left = d.sub other.quantity trade_quantity in
      let trade =
        create_trade clock s.next_trade_id (buyer order.side order other)
          (seller order.side order other) trade_quantity price in
      record {
        remaining = d.sub s.remaining trade_quantity;
        trades = s.trades ++ (trade ∷ []);
        store = write s.store r (set_quantity other left);
        book = if d.le left nought then (remove_order s.book other.id).1 else s.book;
        next_trade_id = (s.next_trade_id + 1) % 2 ^ 64;
      }

  unfoldable pub match_one : (ℕ → ℕ) → ℕ → W → ℕ → Progress W → Progress W
  match_one clock o price r s =
      if accepts (s.store.cell o).side price (s.store.cell r).price
      then fill clock o price r s
      else s

  -- `break` once nothing remains.
  unfoldable pub match_loop : (ℕ → ℕ) → ℕ → W → List ℕ → Progress W → Progress W
  match_loop clock o price [] s = s
  match_loop clock o price (r ∷ rs) s =
      let rest = match_loop clock o price rs (match_one clock o price r s) in
      if d.le s.remaining nought then s else rest
