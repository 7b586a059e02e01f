-- ===== src/Matching.antt =====
-- include/trading/core/matching_engine.hpp and src/core/matching_engine.cpp.
-- `S` is the state of the client whose trade callback the engine calls.
pub mod Loop
pub mod Allocation
pub mod Refines
pub mod Priority
pub mod Orders
pub mod Limit
pub mod Market
pub mod Ids
pub mod Keeps
pub mod Settle
pub mod Solvent
pub mod Cash
use live_trading_engine.Common.{
  ℕ, ◌+◌, ◌%◌, ◌^◌, ◌≡◌, Bool, true, false, ◌&&◌, Option, none, some, List, [], ◌∷◌, ◌++◌,
  if◌then◌else◌, length, Text, decimal,
}
use live_trading_engine.Common.Dict.{Dict, lookup, insert}
use live_trading_engine.Common.Double.{Double, nought}
use live_trading_engine.Order.{Order, OrderSide, buy, sell, OrderType, limit, market, stop}
use live_trading_engine.Order.Store.{Store}
use live_trading_engine.OrderBook.{
  OrderBook, get_buy_orders, get_sell_orders, get_best_bid, get_best_ask,
}
use live_trading_engine.User.{User, new_user, apply_execution}
use Loop.{Trade, Progress, active_orders, match_loop}

pub record Engine {ℓ κ} (W : Type ℓ) (S : Type κ) : Type (ℓ ⊔ κ) where
  pub trade_callback : Option (Trade W → S → S)
  pub client : S
  pub total_trades : ℕ
  pub total_volume : W
  pub next_trade_id : ℕ
  pub orderbooks : Dict (OrderBook W)
  pub users : Dict (User W)

module _ {ℓ κ} {W : Type ℓ} {S : Type κ} where
  unfoldable pub add_order_book : Engine W S → Text → OrderBook W → Engine W S
  add_order_book e symbol b = record e { orderbooks = insert symbol b e.orderbooks }

  unfoldable pub get_order_book : Engine W S → Text → Option (OrderBook W)
  get_order_book e symbol = lookup symbol e.orderbooks

  unfoldable pub set_trade_callback : Engine W S → (Trade W → S → S) → Engine W S
  set_trade_callback e f = record e { trade_callback = some f }

  unfoldable pub add_user : Engine W S → User W → Engine W S
  add_user e u = record e { users = insert u.user_id u e.users }

  unfoldable pub get_user : Engine W S → Text → Option (User W)
  get_user e user_id = lookup user_id e.users

  unfoldable pub notify : Engine W S → Trade W → Engine W S
  notify e t = elim e.trade_callback [ none ↦ e | some f ↦ record e { client = f t e.client } ]

module _ {ℓ} {W : Type ℓ} ⦃d : Double W⦄ where
  -- The orders of the other side and its best price.
  unfoldable pub opposite_orders : OrderBook W → OrderSide → List ℕ
  opposite_orders b buy = get_sell_orders b
  opposite_orders b sell = get_buy_orders b

  unfoldable pub best_price : OrderBook W → OrderSide → W
  best_price b buy = get_best_ask b
  best_price b sell = get_best_bid b

module _ {ℓ κ} {W : Type ℓ} {S : Type κ} ⦃d : Double W⦄ where
  unfoldable pub new_engine : S → Engine W S
  new_engine client = record {
    trade_callback = none;
    client = client;
    total_trades = 0;
    total_volume = nought;
    next_trade_id = 1;
    orderbooks = [];
    users = [];
  }

  unfoldable pub get_or_create_user : Engine W S → Text → W → User W × Engine W S
  unfolding add_user new_user
  get_or_create_user e user_id starting_cash = elim (get_user e user_id) [
    | none ↦ (new_user user_id starting_cash, add_user e (new_user user_id starting_cash))
    | some u ↦ (u, e)
  ]

  -- `user->applyExecution(…)` on the user behind a registered pointer.
  unfoldable pub execute_for : Engine W S → OrderSide → Text → Text → W → W → W → Bool × Engine W S
  execute_for e side user_id symbol quantity price fee = elim (get_user e user_id) [
    | none ↦ (false, e)
    | some u ↦
        let (success, u') = apply_execution u side symbol quantity price fee in
        (success, record e { users = insert user_id u' e.users })
  ]

  -- Both users are there before either execution.
  unfoldable pub update_user_portfolios : Engine W S → Trade W → W → Bool × Engine W S
  update_user_portfolios e t fee =
      let (_, e1) = get_or_create_user e t.buy_user_id (d.lit 10_000 0) in
      let (_, e2) = get_or_create_user e1 t.sell_user_id (d.lit 10_000 0) in
      let (buyer_success, e3) = execute_for e2 buy t.buy_user_id t.symbol t.quantity t.price fee in
      let (seller_success, e4) =
        execute_for e3 sell t.sell_user_id t.symbol t.quantity t.price fee in
      (buyer_success && seller_success, e4)

  -- The body of the loop over the trades: volume, portfolios (the result is dropped), callback.
  unfoldable pub settle_one : Engine W S → Trade W → Engine W S
  settle_one e t =
      let counted = record e { total_volume = d.add e.total_volume (d.mul t.quantity t.price) } in
      notify (update_user_portfolios counted t nought).1 t

  unfoldable pub settle : Engine W S → List (Trade W) → Engine W S
  settle e [] = e
  settle e (t ∷ ts) = settle (settle_one e t) ts

  -- What both matching functions do, for the price that they match and trade at. `clock` tells the
  -- time at which the trade of a number is made.
  unfoldable pub match_at :
      (ℕ → ℕ)
      → Engine W S
      → Store W
      → OrderBook W
      → ℕ
      → W
      → List (Trade W) × Engine W S × Store W × OrderBook W
  match_at clock e st b o price =
      let order = st.cell o in
      let start : Progress W = record {
        remaining = order.quantity;
        trades = [];
        store = st;
        book = b;
        next_trade_id = e.next_trade_id;
      } in
      let active = active_orders st (opposite_orders b order.side) in
      let done = match_loop clock o price active start in
      let counted = record e {
        next_trade_id = done.next_trade_id;
        total_trades = (e.total_trades + length done.trades) % 2 ^ 64;
      } in
      (done.trades, settle counted done.trades, done.store, done.book)

  unfoldable pub match_market_order :
      (ℕ → ℕ)
      → Engine W S
      → Store W
      → OrderBook W
      → ℕ
      → List (Trade W) × Engine W S × Store W × OrderBook W
  match_market_order clock e st b o = match_at clock e st b o (best_price b (st.cell o).side)

  unfoldable pub match_limit_order :
      (ℕ → ℕ)
      → Engine W S
      → Store W
      → OrderBook W
      → ℕ
      → List (Trade W) × Engine W S × Store W × OrderBook W
  match_limit_order clock e st b o = match_at clock e st b o (st.cell o).price

  match_typed :
      (ℕ → ℕ)
      → OrderType
      → Engine W S
      → Store W
      → OrderBook W
      → ℕ
      → List (Trade W) × Engine W S × Store W × OrderBook W
  match_typed clock market e st b o = match_market_order clock e st b o
  match_typed clock limit e st b o = match_limit_order clock e st b o
  match_typed clock stop e st b o = ([], e, st, b)

  unfoldable pub match_order :
      (ℕ → ℕ)
      → Engine W S
      → Store W
      → OrderBook W
      → ℕ
      → List (Trade W) × Engine W S × Store W × OrderBook W
  unfolding match_typed
  match_order clock e st b o = match_typed clock (st.cell o).type e st b o
