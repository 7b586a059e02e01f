-- ===== src/Matching/Settle.antt =====
-- What follows the loop: totals, portfolios, the callback.
use live_trading_engine.Common.{◌≡◌, refl, ap, ◌∙◌, some, List, [], ◌∷◌, arith, Text}
use live_trading_engine.Common.Double.{Double, nought}
use live_trading_engine.Order.{OrderSide}
use live_trading_engine.Matching.Loop.{Trade}
use live_trading_engine.Matching.{
  Engine, notify, get_or_create_user, execute_for, update_user_portfolios, settle_one, settle,
}

module _ {ℓ κ} {W : Type ℓ} {S : Type κ} ⦃d : Double W⦄ where
  -- The client's state after it was told of the trades, in their order.
  unfoldable pub told : (Trade W → S → S) → S → List (Trade W) → S
  told f s [] = s
  told f s (t ∷ ts) = told f (f t s) ts

  create_callback :
      (e : Engine W S) (k : Text) (c : W)
      → (get_or_create_user e k c).1.trade_callback ≡ e.trade_callback
  unfolding get_or_create_user
  create_callback e k c = ground arith

  create_client :
      (e : Engine W S) (k : Text) (c : W) → (get_or_create_user e k c).1.client ≡ e.client
  unfolding get_or_create_user
  create_client e k c = ground arith

  execute_callback :
      (e : Engine W S) (s : OrderSide) (k symbol : Text) (q p fee : W)
      → (execute_for e s k symbol q p fee).1.trade_callback ≡ e.trade_callback
  unfolding execute_for
  execute_callback e s k symbol q p fee = ground arith

  execute_client :
      (e : Engine W S) (s : OrderSide) (k symbol : Text) (q p fee : W)
      → (execute_for e s k symbol q p fee).1.client ≡ e.client
  unfolding execute_for
  execute_client e s k symbol q p fee = ground arith

  portfolios_callback :
      (e : Engine W S) (t : Trade W) (fee : W)
      → (update_user_portfolios e t fee).1.trade_callback ≡ e.trade_callback
  unfolding update_user_portfolios
  portfolios_callback e t fee = simp (execute_callback, create_callback)

  portfolios_client :
      (e : Engine W S) (t : Trade W) (fee : W)
      → (update_user_portfolios e t fee).1.client ≡ e.client
  unfolding update_user_portfolios
  portfolios_client e t fee = simp (execute_client, create_client)

  notify_callback : (e : Engine W S) (t : Trade W) → (notify e t).trade_callback ≡ e.trade_callback
  unfolding notify
  notify_callback e t = ground arith

  notify_client :
      (e : Engine W S) (t : Trade W) (f : Trade W → S → S)
      → e.trade_callback ≡ some f
      → (notify e t).client ≡ f t e.client
  unfolding notify
  notify_client e t f h = rw (h, notify)

  -- The engine with the volume of the trade, before the portfolios.
  abbrev counted : Engine W S → Trade W → Engine W S
  counted e t = record e { total_volume = d.add e.total_volume (d.mul t.quantity t.price) }

  settle_one_callback :
      (e : Engine W S) (t : Trade W) → (settle_one e t).trade_callback ≡ e.trade_callback
  unfolding settle_one
  settle_one_callback e t = notify_callback _ t ∙ portfolios_callback (counted e t) t nought

  settle_one_client :
      (e : Engine W S) (t : Trade W) (f : Trade W → S → S)
      → e.trade_callback ≡ some f
      → (settle_one e t).client ≡ f t e.client
  unfolding settle_one
  settle_one_client e t f h =
      let e' = (update_user_portfolios (counted e t) t nought).1 in
      notify_client e' t f (portfolios_callback (counted e t) t nought ∙ h)
      ∙ ap (f t) (portfolios_client (counted e t) t nought)

  -- The callback, if it is set, is called once for each trade, in the order of the trades.
  pub settle_notifies :
      (e : Engine W S) (ts : List (Trade W)) (f : Trade W → S → S)
      → e.trade_callback ≡ some f
      → (settle e ts).client ≡ told f e.client ts
  unfolding settle told
  settle_notifies e [] f h = refl
  settle_notifies e (t ∷ ts) f h =
      settle_notifies (settle_one e t) ts f (settle_one_callback e t ∙ h)
      ∙ ap (λ s. told f s ts) (settle_one_client e t f h)
