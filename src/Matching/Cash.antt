-- ===== src/Matching/Cash.antt =====
-- The cash that a trade moves between two users.
use live_trading_engine.Common.{
  ◌≡◌, ◌≢◌, refl, sym, ap, ◌∙◌, Bool, true, false, ◌&&◌, some, arith, Text, text_eq_iff,
}
use live_trading_engine.Common.Dict.{insert, lookup-insert, lookup-insert_self}
use live_trading_engine.Common.Double.{Double, nought, IsExact}
use live_trading_engine.Order.{OrderSide, buy, sell}
use live_trading_engine.User.{User, apply_execution}
use live_trading_engine.User.Moves.{
  apply_buy_cash, apply_sell_cash, apply_buy_short, paid_sum, unpaid_sum,
}
use live_trading_engine.Matching.Loop.{Trade}
use live_trading_engine.Matching.{
  Engine, get_user, get_or_create_user, execute_for, update_user_portfolios,
}

both_true : (a b : Bool) → (a && b) ≡ true → (a ≡ true) × (b ≡ true)
both_true a b h = ground arith

module _ {ℓ κ} {W : Type ℓ} {S : Type κ} ⦃d : Double W⦄ where
  create_known :
      (e : Engine W S) (k : Text) (c : W) (u : User W)
      → get_user e k ≡ some u
      → get_or_create_user e k c ≡ (u, e)
  unfolding get_or_create_user
  create_known e k c u h = rw (h, get_or_create_user)

  execute_known :
      (e : Engine W S) (s : OrderSide) (k symbol : Text) (q p fee : W) (u : User W)
      → get_user e k ≡ some u
      → let (success, u') = apply_execution u s symbol q p fee in
        execute_for e s k symbol q p fee ≡ (success, record e { users = insert k u' e.users })
  unfolding execute_for
  execute_known e s k symbol q p fee u h = rw (h, execute_for)

  get_insert_ne :
      (e : Engine W S) (k j : Text) (u : User W)
      → k ≢ j
      → get_user (record e { users = insert k u e.users }) j ≡ get_user e j
  unfolding get_user
  get_insert_ne e k j u ne = ground (arith, lookup-insert j k u e.users, text_eq_iff k j)

  get_insert_self :
      (e : Engine W S) (k : Text) (u : User W)
      → get_user (record e { users = insert k u e.users }) k ≡ some u
  unfolding get_user
  get_insert_self e k u = lookup-insert_self k u e.users

  -- A trade between two registered users, as the two executions see it.
  portfolios_known :
      (e : Engine W S) (t : Trade W) (u v : User W)
      → t.buy_user_id ≢ t.sell_user_id
      → get_user e t.buy_user_id ≡ some u
      → get_user e t.sell_user_id ≡ some v
      → let (bought, u') = apply_execution u buy t.symbol t.quantity t.price nought in
        let (sold, v') = apply_execution v sell t.symbol t.quantity t.price nought in
        let (success, e') = update_user_portfolios e t nought in
        (success ≡ bought && sold)
        × (get_user e' t.buy_user_id ≡ some u')
        × (get_user e' t.sell_user_id ≡ some v')
  unfolding update_user_portfolios
  portfolios_known e t u v ne hu hv =
      let u' = (apply_execution u buy t.symbol t.quantity t.price nought).1 in
      let v' = (apply_execution v sell t.symbol t.quantity t.price nought).1 in
      let e3 = record e { users = insert t.buy_user_id u' e.users } in
      let hv3 = get_insert_ne e t.buy_user_id t.sell_user_id u' ne ∙ hv in
      rw
        (
          create_known e t.buy_user_id (d.lit 10_000 0) u hu,
          create_known e t.sell_user_id (d.lit 10_000 0) v hv,
          execute_known e buy t.buy_user_id t.symbol t.quantity t.price nought u hu,
          execute_known e3 sell t.sell_user_id t.symbol t.quantity t.price nought v hv3,
        )
        (
          refl,
          get_insert_ne e3 t.sell_user_id t.buy_user_id v' (λ h. ne (sym h))
              ∙ get_insert_self e t.buy_user_id u',
          get_insert_self e3 t.sell_user_id v',
        )

  -- Without rounding, a trade between two registered users that both executions accept moves cash
  -- from the buyer to the seller: the sum of their balances stays.
  pub paid_trade_conserves_cash :
      (e : Engine W S) (t : Trade W) (u v : User W)
      → IsExact W
      → t.buy_user_id ≢ t.sell_user_id
      → get_user e t.buy_user_id ≡ some u
      → get_user e t.sell_user_id ≡ some v
      → (update_user_portfolios e t nought).0 ≡ true
      → let e' = (update_user_portfolios e t nought).1 in
        (u' : User W) × (v' : User W) × (get_user e' t.buy_user_id ≡ some u')
        × (get_user e' t.sell_user_id ≡ some v')
        × (d.add u'.cash_balance v'.cash_balance ≡ d.add u.cash_balance v.cash_balance)
  paid_trade_conserves_cash e t u v exact ne hu hv ok =
      let (flag, hu', hv') = portfolios_known e t u v ne hu hv in
      let bought = apply_execution u buy t.symbol t.quantity t.price nought in
      let sold = apply_execution v sell t.symbol t.quantity t.price nought in
      let (b, s) = both_true bought.0 sold.0 (sym flag ∙ ok) in
      (
        bought.1,
        sold.1,
        hu',
        hv',
        rw
            (
              apply_buy_cash u t.symbol t.quantity t.price nought b,
              apply_sell_cash v t.symbol t.quantity t.price nought s,
            )
            (paid_sum exact u.cash_balance v.cash_balance (d.mul t.quantity t.price)),
      )

  -- The two executions are not tied together. If the buyer's cash does not cover the trade and the
  -- seller's execution succeeds, then, without rounding, the buyer stays as before, the seller is
  -- paid all the same, and the sum of their balances grows by the whole amount of the trade.
  pub unpaid_trade_mints_cash :
      (e : Engine W S) (t : Trade W) (u v : User W)
      → IsExact W
      → t.buy_user_id ≢ t.sell_user_id
      → get_user e t.buy_user_id ≡ some u
      → get_user e t.sell_user_id ≡ some v
      → d.lt u.cash_balance (d.add (d.mul t.quantity t.price) nought) ≡ true
      → (apply_execution v sell t.symbol t.quantity t.price nought).0 ≡ true
      → let (success, e') = update_user_portfolios e t nought in
        (v' : User W) × (success ≡ false)
        × (get_user e' t.buy_user_id ≡ some u)
        × (get_user e' t.sell_user_id ≡ some v')
        × (d.add u.cash_balance v'.cash_balance
            ≡ d.add (d.add u.cash_balance v.cash_balance) (d.mul t.quantity t.price))
  unpaid_trade_mints_cash e t u v exact ne hu hv short s =
      let (flag, hu', hv') = portfolios_known e t u v ne hu hv in
      let refused = apply_buy_short u t.symbol t.quantity t.price nought short in
      (
        (apply_execution v sell t.symbol t.quantity t.price nought).1,
        flag
            ∙ ap (λ r. r.0 && (apply_execution v sell t.symbol t.quantity t.price nought).0)
                refused,
        hu' ∙ ap (λ (r : Bool × User W). some r.1) refused,
        hv',
        rw (apply_sell_cash v t.symbol t.quantity t.price nought s)
            (unpaid_sum exact u.cash_balance v.cash_balance (d.mul t.quantity t.price)),
      )
