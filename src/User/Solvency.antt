-- ===== src/User/Solvency.antt =====
-- No operation of a user overdraws the account or makes a position negative, and one that fails
-- changes nothing.
use live_trading_engine.Common.{
  ◌≡◌, refl, inl, inr, Bool-cases, Option-cases, false, some, arith, Text, text_eq,
}
use live_trading_engine.Common.Dict.{Dict, lookup, insert, lookup-insert}
use live_trading_engine.Common.Double.{Double, nought, ◌≼◌, IsNum, IsFinite, IsIeee}
use live_trading_engine.Order.{OrderSide, buy, sell}
use live_trading_engine.User.{
  User, Position, apply_buy, apply_sell, sell_from, apply_execution, reduce, find_or_insert,
  is_invalid,
}

module _ {ℓ} {W : Type ℓ} ⦃d : Double W⦄ where
  abbrev pub NonNegative : Dict (Position W) → Type ℓ
  NonNegative m = (s : Text) (p : Position W) → lookup s m ≡ some p → nought ≼ p.quantity

  pub record IsSolvent (u : User W) : Type ℓ where
    pub cash : nought ≼ u.cash_balance
    pub owned : NonNegative u.positions

  insert-NonNegative :
      (k : Text) (v : Position W) (m : Dict (Position W))
      → nought ≼ v.quantity
      → NonNegative m
      → NonNegative (insert k v m)
  insert-NonNegative k v m hv hm s p e = elim (Bool-cases (text_eq k s)) [
    | inl t ↦ ground (arith, lookup-insert s k v m)
    | inr t ↦ hm s p (ground (arith, lookup-insert s k v m))
  ]

  -- An execution with finite amounts.
  pub record IsFill (side : OrderSide) (q p fee : W) : Type ℓ where
    pub quantity_finite : IsFinite q
    pub fee_finite : IsFinite fee
    pub cost_finite : IsFinite (d.add (d.mul q p) fee)
    pub proceeds : side ≡ sell → fee ≼ d.mul q p

  module _ (laws : IsIeee W) where
    open laws use {
      le_num, le_trans, le_total, lt-eq-not-le, finite_num, lit_finite, lit_nonneg, sub_nonneg,
      sub_num, add_nonneg, le_add,
    }

    nought-IsNum : IsNum {W = W} nought
    nought-IsNum = finite_num nought (lit_finite 0 0 (omega arith))

    le_of_not_lt : (x y : W) → IsNum x → IsNum y → d.lt x y ≡ false → y ≼ x
    le_of_not_lt x y hx hy h = ground (arith, lt-eq-not-le x y hx hy)

    le_of_not_le : (x y : W) → IsNum x → IsNum y → d.le x y ≡ false → y ≼ x
    le_of_not_le x y hx hy h = ground (arith, le_total x y hx hy)

    find_or_insert-NonNegative :
        (m : Dict (Position W)) (s : Text)
        → NonNegative m
        → (nought ≼ (find_or_insert m s).0.quantity) × NonNegative (find_or_insert m s).1
    unfolding find_or_insert
    find_or_insert-NonNegative m s h = elim (Option-cases (lookup s m)) [
      | inl e ↦ rw (e, find_or_insert) (nought-IsNum, insert-NonNegative s _ m nought-IsNum h)
      | inr (p, e) ↦ rw (e, find_or_insert) (h s p e, h)
    ]

    quantity_pos : (q p fee : W) → is_invalid q p fee ≡ false → d.le q nought ≡ false
    unfolding is_invalid
    quantity_pos q p fee h = ground arith

    apply_buy-IsSolvent :
        (u : User W) (s : Text) (q p fee : W)
        → IsFill buy q p fee
        → d.le q nought ≡ false
        → IsSolvent u
        → IsSolvent (apply_buy u s q p fee).1
    unfolding apply_buy
    apply_buy-IsSolvent u s q p fee f h v =
        let cost = d.add (d.mul q p) fee in
        let (pos, placed) = find_or_insert-NonNegative u.positions s v.owned in
        let q_pos = le_of_not_le q nought (finite_num q f.quantity_finite) nought-IsNum h in
        elim (Bool-cases (d.lt u.cash_balance cost)) [
          | inl e ↦ rw e v
          | inr e ↦
              let enough =
                le_of_not_lt u.cash_balance cost (le_num _ _ v.cash).1
                  (finite_num cost f.cost_finite) e in
              elim (Bool-cases (d.le (d.add (find_or_insert u.positions s).0.quantity q) nought)) [
                | inl g ↦ rw (e, g) (record { cash = v.cash; owned = placed })
                | inr g ↦
                    rw (e, g)
                      (record {
                        cash = sub_nonneg u.cash_balance cost f.cost_finite enough;
                        owned =
                            insert-NonNegative s _ (find_or_insert u.positions s).1
                              (add_nonneg (find_or_insert u.positions s).0.quantity q pos q_pos)
                              placed;
                      })
              ]
        ]

    reduce_nonneg :
        (pos : Position W) (q : W)
        → nought ≼ pos.quantity
        → IsFinite q
        → nought ≼ (reduce pos q).quantity
    unfolding reduce
    reduce_nonneg pos q h f =
        let left = sub_num pos.quantity q (le_num _ _ h).1 f in
        let eps = lit_nonneg 1 12 in
        elim (Bool-cases (d.le (d.sub pos.quantity q) (d.lit 1 12))) [
          | inl e ↦ rw e nought-IsNum
          | inr e ↦ rw e (le_trans _ _ _ eps (le_of_not_le _ _ left (le_num _ _ eps).1 e))
        ]

    apply_sell-IsSolvent :
        (u : User W) (s : Text) (q p fee : W)
        → IsFill sell q p fee
        → IsSolvent u
        → IsSolvent (apply_sell u s q p fee).1
    unfolding apply_sell sell_from
    apply_sell-IsSolvent u s q p fee f v = elim (Option-cases (lookup s u.positions)) [
      | inl e ↦ rw (e, apply_sell) v
      | inr (pos, e) ↦ elim (Bool-cases (d.lt (d.add pos.quantity (d.lit 1 12)) q)) [
        | inl g ↦ rw (e, apply_sell, g) v
        | inr g ↦
            rw (e, apply_sell, g)
              (record {
                cash =
                    add_nonneg u.cash_balance _ v.cash
                      (sub_nonneg (d.mul q p) fee f.fee_finite (f.proceeds refl));
                owned =
                    insert-NonNegative s (reduce pos q) u.positions
                      (reduce_nonneg pos q (v.owned s pos e) f.quantity_finite) v.owned;
              })
      ]
    ]

    -- No execution with finite amounts overdraws the account or makes a position negative, whether
    -- it succeeds or fails, provided that the fee of a sale is at most what it brings in.
    pub apply_execution-IsSolvent :
        (u : User W) (side : OrderSide) (s : Text) (q p fee : W)
        → IsFill side q p fee
        → IsSolvent u
        → IsSolvent (apply_execution u side s q p fee).1
    unfolding apply_execution
    apply_execution-IsSolvent u buy s q p fee f v = elim (Bool-cases (is_invalid q p fee)) [
      | inl g ↦ rw g v
      | inr g ↦ rw g (apply_buy-IsSolvent u s q p fee f (quantity_pos q p fee g) v)
    ]
    apply_execution-IsSolvent u sell s q p fee f v = elim (Bool-cases (is_invalid q p fee)) [
      | inl g ↦ rw g v
      | inr g ↦ rw g (apply_sell-IsSolvent u s q p fee f v)
    ]

    -- After the first check the quantity is positive, so a purchase always leaves a position.
    bought_not_empty :
        (x q : W) → IsNum q → nought ≼ x → d.le q nought ≡ false → d.le (d.add x q) nought ≡ false
    bought_not_empty x q n h k = elim (Bool-cases (d.le (d.add x q) nought)) [
      | inl e ↦ cc (
        le_trans q (d.add x q) nought
            (le_add x q h (ground (arith, le_total nought q nought-IsNum n))) e,
        k,
      )
      | inr e ↦ e
    ]

    -- An execution that is refused leaves a solvent user exactly as it was. (The branch of the
    -- purchase that creates a position and then fails is never taken.)
    pub apply_execution_atomic :
        (u : User W) (side : OrderSide) (s : Text) (q p fee : W)
        → IsFinite q
        → IsSolvent u
        → (apply_execution u side s q p fee).0 ≡ false
        → (apply_execution u side s q p fee).1 ≡ u
    unfolding apply_execution apply_buy apply_sell sell_from
    apply_execution_atomic u buy s q p fee f v h =
        let (pos, _) = find_or_insert-NonNegative u.positions s v.owned in
        ground (
          arith,
          quantity_pos q p fee,
          bought_not_empty (find_or_insert u.positions s).0.quantity q (finite_num q f) pos,
        )
    apply_execution_atomic u sell s q p fee f v h = ground arith
