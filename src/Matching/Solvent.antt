-- ===== src/Matching/Solvent.antt =====
-- The portfolios of all registered users through the settlement of trades.
use live_trading_engine.Common.{
  ℕ, ◌≡◌, sym, subst, inl, inr, Bool-cases, Option-cases, some, List, [], ◌∷◌, All, arith, Text,
  text_eq,
}
use live_trading_engine.Common.Dict.{Dict, lookup, insert, lookup-insert}
use live_trading_engine.Common.Double.{Double, nought, ◌≼◌, IsFinite, IsIeee}
use live_trading_engine.Order.{OrderSide, buy, sell}
use live_trading_engine.User.{User, new_user}
use live_trading_engine.User.Solvency.{IsSolvent, IsFill, apply_execution-IsSolvent}
use live_trading_engine.Matching.Loop.{Trade}
use live_trading_engine.Matching.{
  Engine, add_user, get_user, notify, get_or_create_user, execute_for, update_user_portfolios,
  settle_one, settle,
}

module _ {ℓ} {W : Type ℓ} ⦃d : Double W⦄ where
  -- Every registered user is solvent.
  abbrev pub AllSolvent : Dict (User W) → Type ℓ
  AllSolvent users = (k : Text) (u : User W) → lookup k users ≡ some u → IsSolvent u

  -- The amounts of a trade are finite and not negative.
  pub record IsPayable (t : Trade W) : Type ℓ where
    pub quantity_finite : IsFinite t.quantity
    pub price_finite : IsFinite t.price
    pub cost_finite : IsFinite (d.add (d.mul t.quantity t.price) nought)
    pub quantity_nonneg : nought ≼ t.quantity
    pub price_nonneg : nought ≼ t.price

  insert-AllSolvent :
      (k : Text) (u : User W) (users : Dict (User W))
      → IsSolvent u
      → AllSolvent users
      → AllSolvent (insert k u users)
  insert-AllSolvent k u users hu h j v e = elim (Bool-cases (text_eq k j)) [
    | inl t ↦ subst IsSolvent (ground (arith, lookup-insert j k u users)) hu
    | inr t ↦ h j v (ground (arith, lookup-insert j k u users))
  ]

  module _ (laws : IsIeee W) where
    open laws use {finite_num, lit_finite, lit_nonneg, mul_nonneg}

    new_user-IsSolvent : (k : Text) (m : ℕ) → IsSolvent (new_user k (d.lit m 0))
    unfolding new_user lookup
    new_user-IsSolvent k m = record { cash = lit_nonneg m 0; owned = λ s p e. cc }

    IsPayable-IsFill :
        (t : Trade W) (s : OrderSide) → IsPayable t → IsFill s t.quantity t.price nought
    IsPayable-IsFill t s p = record {
      quantity_finite = p.quantity_finite;
      fee_finite = lit_finite 0 0 (omega arith);
      cost_finite = p.cost_finite;
      proceeds = λ _.
          mul_nonneg t.quantity t.price p.quantity_finite p.price_finite p.quantity_nonneg
            p.price_nonneg;
    }

module _ {ℓ κ} {W : Type ℓ} {S : Type κ} ⦃d : Double W⦄ where
  module _ (laws : IsIeee W) where
    create-AllSolvent :
        (e : Engine W S) (k : Text)
        → AllSolvent e.users
        → AllSolvent (get_or_create_user e k (d.lit 10_000 0)).1.users
    unfolding get_or_create_user add_user
    create-AllSolvent e k h = elim (Option-cases (get_user e k)) [
      | inl g ↦
          rw (g, get_or_create_user)
            (insert-AllSolvent _ _ e.users (new_user-IsSolvent laws k 10_000) h)
      | inr (u, g) ↦ rw (g, get_or_create_user) h
    ]

    execute-AllSolvent :
        (e : Engine W S) (s : OrderSide) (k symbol : Text) (q p fee : W)
        → IsFill s q p fee
        → AllSolvent e.users
        → AllSolvent (execute_for e s k symbol q p fee).1.users
    unfolding execute_for get_user
    execute-AllSolvent e s k symbol q p fee f h = elim (Option-cases (lookup k e.users)) [
      | inl g ↦ rw (g, execute_for) h
      | inr (u, g) ↦
          rw (g, execute_for)
            (insert-AllSolvent k _ e.users
              (apply_execution-IsSolvent laws u s symbol q p fee f (h k u g)) h)
    ]

    portfolios-AllSolvent :
        (e : Engine W S) (t : Trade W)
        → IsPayable t
        → AllSolvent e.users
        → AllSolvent (update_user_portfolios e t nought).1.users
    unfolding update_user_portfolios
    portfolios-AllSolvent e t p h =
        execute-AllSolvent _ sell t.sell_user_id t.symbol t.quantity t.price nought
          (IsPayable-IsFill laws t sell p)
          (execute-AllSolvent _ buy t.buy_user_id t.symbol t.quantity t.price nought
            (IsPayable-IsFill laws t buy p)
            (create-AllSolvent _ t.sell_user_id (create-AllSolvent e t.buy_user_id h)))

    notify_users : (e : Engine W S) (t : Trade W) → (notify e t).users ≡ e.users
    unfolding notify
    notify_users e t = ground arith

    -- Whatever trades are settled, as long as their amounts are finite and not negative, no user
    -- ends with a negative balance or position, those included that the settlement registers.
    pub settle-AllSolvent :
        (e : Engine W S) (ts : List (Trade W))
        → All IsPayable ts
        → AllSolvent e.users
        → AllSolvent (settle e ts).users
    unfolding settle settle_one
    settle-AllSolvent e [] p h = h
    settle-AllSolvent e (t ∷ ts) (p, ps) h =
        settle-AllSolvent (settle_one e t) ts ps
          (subst AllSolvent (sym (notify_users _ t)) (portfolios-AllSolvent _ t p h))
