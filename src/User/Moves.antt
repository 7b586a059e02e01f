-- ===== src/User/Moves.antt =====
-- The cash that an execution moves.
use live_trading_engine.Common.{◌≡◌, ap, ◌∙◌, true, false, Text, arith, sym}
use live_trading_engine.Common.Double.{Double, nought, IsExact}
use live_trading_engine.Order.{buy, sell}
use live_trading_engine.User.{User, apply_execution, apply_buy, apply_sell, sell_from}

module _ {ℓ} {W : Type ℓ} ⦃d : Double W⦄ (u : User W) (s : Text) (q p fee : W) where
  pub apply_buy_cash :
      (apply_execution u buy s q p fee).0 ≡ true
      → (apply_execution u buy s q p fee).1.cash_balance
        ≡ d.sub u.cash_balance (d.add (d.mul q p) fee)
  unfolding apply_execution apply_buy
  apply_buy_cash h = ground arith

  pub apply_sell_cash :
      (apply_execution u sell s q p fee).0 ≡ true
      → (apply_execution u sell s q p fee).1.cash_balance
        ≡ d.add u.cash_balance (d.sub (d.mul q p) fee)
  unfolding apply_execution apply_sell sell_from
  apply_sell_cash h = ground arith

  -- A purchase that the cash does not cover is refused, and changes nothing.
  pub apply_buy_short :
      d.lt u.cash_balance (d.add (d.mul q p) fee) ≡ true
      → apply_execution u buy s q p fee ≡ (false, u)
  unfolding apply_execution apply_buy
  apply_buy_short h = ground arith

module _ {ℓ} {W : Type ℓ} ⦃d : Double W⦄ (exact : IsExact W) where
  open exact use {add_assoc, add_comm, zero_add, sub_add}

  add_zero : (x : W) → d.add x nought ≡ x
  add_zero x = add_comm x nought ∙ zero_add x

  pub sub_zero : (x : W) → d.sub x nought ≡ x
  sub_zero x = sym (add_zero (d.sub x nought)) ∙ sub_add x nought

  -- What the buyer pays without a fee is what the seller gets.
  pub paid_sum :
      (x y g : W) → d.add (d.sub x (d.add g nought)) (d.add y (d.sub g nought)) ≡ d.add x y
  paid_sum x y g =
      rw (add_zero g, sub_zero g)
        (ap (d.add (d.sub x g)) (add_comm y g)
          ∙ sym (add_assoc (d.sub x g) g y)
          ∙ ap (λ z. d.add z y) (sub_add x g))

  pub unpaid_sum : (x y g : W) → d.add x (d.add y (d.sub g nought)) ≡ d.add (d.add x y) g
  unpaid_sum x y g = rw (sub_zero g) (sym (add_assoc x y g))
