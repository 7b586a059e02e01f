-- ===== src/User.antt =====
-- include/trading/core/user.hpp and src/core/user.cpp: a user's cash and positions.
pub mod Solvency
pub mod Moves
use live_trading_engine.Common.{
  Bool, true, false, ◌||◌, Option, none, some, [], if◌then◌else◌, Text,
}
use live_trading_engine.Common.Dict.{Dict, lookup, insert}
use live_trading_engine.Common.Double.{Double, nought}
use live_trading_engine.Order.{OrderSide, buy, sell}

pub record Position {ℓ} (W : Type ℓ) : Type ℓ where
  pub symbol : Text
  pub quantity : W
  pub average_price : W

pub record User {ℓ} (W : Type ℓ) : Type ℓ where
  pub user_id : Text
  pub cash_balance : W
  pub realized_pnl : W
  pub positions : Dict (Position W)

module _ {ℓ} {W : Type ℓ} ⦃d : Double W⦄ where
  unfoldable pub new_user : Text → W → User W
  new_user user_id starting_cash = record {
    user_id = user_id;
    cash_balance = starting_cash;
    realized_pnl = nought;
    positions = [];
  }

  unfoldable pub deposit_cash : User W → W → Bool × User W
  deposit_cash u amount =
      if d.le amount nought
      then (false, u)
      else (true, record u { cash_balance = d.add u.cash_balance amount })

  unfoldable pub withdraw_cash : User W → W → Bool × User W
  withdraw_cash u amount =
      if d.le amount nought || d.lt u.cash_balance amount
      then (false, u)
      else (true, record u { cash_balance = d.sub u.cash_balance amount })

  unfoldable pub get_position : User W → Text → Option (Position W)
  get_position u symbol = lookup symbol u.positions

  -- The position that `symbol_to_position_[symbol]` creates.
  unfoldable pub fresh_position : Text → Position W
  fresh_position symbol = record { symbol = symbol; quantity = nought; average_price = nought }

  -- The position to update, and the positions with it in place.
  unfoldable pub find_or_insert : Dict (Position W) → Text → Position W × Dict (Position W)
  unfolding fresh_position
  find_or_insert m symbol = elim (lookup symbol m) [
    | none ↦ (fresh_position symbol, insert symbol (fresh_position symbol) m)
    | some pos ↦ (pos, m)
  ]

  unfoldable pub apply_buy : User W → Text → W → W → W → Bool × User W
  apply_buy u symbol executed_quantity executed_price fee =
      let gross_amount = d.mul executed_quantity executed_price in
      let total_cost = d.add gross_amount fee in
      let (pos, placed) = find_or_insert u.positions symbol in
      let new_quantity = d.add pos.quantity executed_quantity in
      let previous_cost_basis = d.mul pos.average_price pos.quantity in
      let new_cost_basis = d.add previous_cost_basis gross_amount in
      let bought : Position W = record pos {
        quantity = new_quantity;
        average_price = d.div new_cost_basis new_quantity;
      } in
      if d.lt u.cash_balance total_cost
      then (false, u)
      else if d.le new_quantity nought
      then (false, record u { positions = placed })
      else (
        true,
        record u {
          positions = insert symbol bought placed;
          cash_balance = d.sub u.cash_balance total_cost;
        },
      )

  -- The position after a sale: it is reset when it is flat.
  unfoldable pub reduce : Position W → W → Position W
  reduce pos executed_quantity =
      let left = d.sub pos.quantity executed_quantity in
      if d.le left (d.lit 1 12)
      then record pos { quantity = nought; average_price = nought }
      else record pos { quantity = left }

  unfoldable pub sell_from : User W → Text → Position W → W → W → W → Bool × User W
  sell_from u symbol pos executed_quantity executed_price fee =
      let gross_amount = d.mul executed_quantity executed_price in
      let cost_basis_of_sold = d.mul pos.average_price executed_quantity in
      let proceeds = d.sub gross_amount fee in
      let pnl = d.sub proceeds cost_basis_of_sold in
      if d.lt (d.add pos.quantity (d.lit 1 12)) executed_quantity then (false, u) else (
        true,
        record u {
          realized_pnl = d.add u.realized_pnl pnl;
          positions = insert symbol (reduce pos executed_quantity) u.positions;
          cash_balance = d.add u.cash_balance proceeds;
        },
      )

  unfoldable pub apply_sell : User W → Text → W → W → W → Bool × User W
  apply_sell u symbol executed_quantity executed_price fee = elim (lookup symbol u.positions) [
    | none ↦ (false, u)
    | some pos ↦ sell_from u symbol pos executed_quantity executed_price fee
  ]

  unfoldable pub is_invalid : W → W → W → Bool
  is_invalid executed_quantity executed_price fee =
      d.le executed_quantity nought || d.lt executed_price nought || d.lt fee nought

  unfoldable pub apply_execution : User W → OrderSide → Text → W → W → W → Bool × User W
  apply_execution u buy symbol q p fee =
      if is_invalid q p fee then (false, u) else apply_buy u symbol q p fee
  apply_execution u sell symbol q p fee =
      if is_invalid q p fee then (false, u) else apply_sell u symbol q p fee
