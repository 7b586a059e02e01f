-- ===== src/Examples/Users.antt =====
-- Users and the settlement of trades at concrete inputs.
use live_trading_engine.Common.{
  ℕ, ◌+◌, ◌≡◌, ◌≢◌, refl, [], ◌∷◌, arith, true, false, some, codes, text_eq, text_eq_iff, text_lt,
}
use live_trading_engine.Common.Dict.{lookup, insert}
use live_trading_engine.Common.Int.{ℤ, pos, ◌-ℤ◌, ◌+ℤ◌, ◌*ℤ◌}
use live_trading_engine.Common.Double.{Int-IsIeee, Int-IsExact, int_double, nought}
use live_trading_engine.Order.{sell}
use live_trading_engine.User.{
  User, Position, apply_execution, apply_buy, apply_sell, sell_from, is_invalid, find_or_insert,
  fresh_position, reduce,
}
use live_trading_engine.User.Solvency.{
  IsSolvent, IsFill, apply_execution-IsSolvent, apply_execution_atomic,
}
use live_trading_engine.Matching.{
  Engine, get_user, get_or_create_user, execute_for, update_user_portfolios, settle,
}
use live_trading_engine.Matching.Loop.{Trade}
use live_trading_engine.Matching.Settle.{told, settle_notifies}
use live_trading_engine.Matching.Solvent.{AllSolvent, IsPayable, settle-AllSolvent}
use live_trading_engine.Matching.Cash.{paid_trade_conserves_cash, unpaid_trade_mints_cash}
use live_trading_engine.Examples.Scene.{market_engine}

abbrev shares : ℕ → Position ℤ
shares n = record { symbol = codes "AAPL"; quantity = pos n; average_price = pos 90 }

abbrev rich : User ℤ
rich = record {
  user_id = codes "ann";
  cash_balance = pos 1000;
  realized_pnl = pos 0;
  positions = (codes "AAPL", shares 5) ∷ [];
}

abbrev poor : User ℤ
poor = record { user_id = codes "bob"; cash_balance = pos 50; realized_pnl = pos 0; positions = [] }

rich-IsSolvent : IsSolvent rich
unfolding lookup text_eq
rich-IsSolvent = record { cash = refl; owned = λ s p e. ground arith }

rich-IsFill : IsFill sell (pos 2) (pos 100) (pos 0)
unfolding ◌*ℤ◌
rich-IsFill = record {
  quantity_finite = refl;
  fee_finite = refl;
  cost_finite = refl;
  proceeds = λ _. refl;
}

apply_execution-IsSolvent_example :
    IsSolvent (apply_execution rich sell (codes "AAPL") (pos 2) (pos 100) (pos 0)).1
apply_execution-IsSolvent_example =
    apply_execution-IsSolvent Int-IsIeee rich sell (codes "AAPL") (pos 2) (pos 100) (pos 0)
      rich-IsFill rich-IsSolvent

-- What the executions compute with.
executions : ℕ
unfolding apply_execution apply_buy apply_sell sell_from is_invalid find_or_insert fresh_position
    reduce lookup insert text_eq text_lt get_user update_user_portfolios get_or_create_user
    execute_for ◌-ℤ◌ ◌+ℤ◌ ◌*ℤ◌
executions = 0

-- 9 shares are more than ann has.
apply_execution_atomic_example :
    (apply_execution rich sell (codes "AAPL") (pos 9) (pos 100) (pos 0)).1 ≡ rich
unfolding executions
apply_execution_atomic_example =
    apply_execution_atomic Int-IsIeee rich sell (codes "AAPL") (pos 9) (pos 100) (pos 0) refl
      rich-IsSolvent refl

abbrev pub sale : Trade ℤ
sale = record {
  trade_id = codes "1";
  buy_order_id = codes "b";
  sell_order_id = codes "s";
  buy_user_id = codes "bob";
  sell_user_id = codes "ann";
  symbol = codes "AAPL";
  quantity = pos 2;
  price = pos 100;
  timestamp = 0;
}

abbrev small_sale : Trade ℤ
small_sale = record sale { quantity = pos 1; price = pos 40 }

abbrev trading : Engine ℤ ℕ
trading = record market_engine { users = (codes "ann", rich) ∷ (codes "bob", poor) ∷ [] }

abbrev counting : Engine ℤ ℕ
counting = record trading { trade_callback = some (λ _ n. n + 1) }

settle_notifies_example : (settle counting (sale ∷ small_sale ∷ [])).client ≡ 2
unfolding told
settle_notifies_example = settle_notifies counting (sale ∷ small_sale ∷ []) (λ _ n. n + 1) refl

sale-IsPayable : IsPayable sale
sale-IsPayable = record {
  quantity_finite = refl;
  price_finite = refl;
  cost_finite = refl;
  quantity_nonneg = refl;
  price_nonneg = refl;
}

settle-AllSolvent_example : AllSolvent (settle market_engine (sale ∷ [])).users
unfolding lookup
settle-AllSolvent_example =
    settle-AllSolvent Int-IsIeee market_engine (sale ∷ []) (sale-IsPayable, tt) (λ k u e. cc)

bob_and_ann : codes "bob" ≢ codes "ann"
unfolding text_eq
bob_and_ann e = let h : false ≡ true = (text_eq_iff (codes "bob") (codes "ann")).1 e in cc

paid_trade_conserves_cash_example :
    (u' : User ℤ) × (v' : User ℤ) × (get_user
        (update_user_portfolios trading small_sale nought).1
        (codes "bob")
      ≡ some u')
    × (get_user (update_user_portfolios trading small_sale nought).1 (codes "ann") ≡ some v')
    × (u'.cash_balance +ℤ v'.cash_balance ≡ pos 50 +ℤ pos 1000)
unfolding executions
paid_trade_conserves_cash_example =
    paid_trade_conserves_cash trading small_sale poor rich Int-IsExact bob_and_ann refl refl refl

-- bob has 50, and buys for 200.
unpaid_trade_mints_cash_example :
    (v' : User ℤ) × ((update_user_portfolios trading sale nought).0 ≡ false)
    × (get_user (update_user_portfolios trading sale nought).1 (codes "bob") ≡ some poor)
    × (get_user (update_user_portfolios trading sale nought).1 (codes "ann") ≡ some v')
    × (pos 50 +ℤ v'.cash_balance ≡ pos 50 +ℤ pos 1000 +ℤ pos 2 *ℤ pos 100)
unfolding executions
unpaid_trade_mints_cash_example =
    unpaid_trade_mints_cash trading sale poor rich Int-IsExact bob_and_ann refl refl refl refl
