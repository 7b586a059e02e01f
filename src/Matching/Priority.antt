-- ===== src/Matching/Priority.antt =====
-- What an allocation of the incoming quantity guarantees: price limit, priority, exhaustion.
use live_trading_engine.Common.{
  ℕ, ◌≡◌, refl, sym, ap, ◌∙◌, ◌≢◌, ◌⊎◌, inl, inr, Bool-cases, true, false, List, [], ◌∷◌, All,
  All-map2, arith, ◌==◌, ==_iff, subst,
}
use live_trading_engine.Common.Double.{
  Double, nought, min, ◌≼◌, ◌≺◌, IsNum, IsFinite, IsIeee, IsExact,
}
use live_trading_engine.Order.{Order, OrderSide, set_quantity}
use live_trading_engine.Matching.Loop.{accepts}
use live_trading_engine.Matching.Allocation.{Distinct, given, allocate, rest_of, after}

module _ {ℓ} {W : Type ℓ} ⦃d : Double W⦄ where
  -- A resting order that takes part: a finite quantity above zero.
  abbrev pub IsActive : (ℕ → Order W) → ℕ → Type 0
  IsActive cell r = IsFinite (cell r).quantity × (nought ≺ (cell r).quantity)

  -- A fill: at an acceptable price, above zero and within the resting quantity.
  abbrev pub IsFair : OrderSide → W → (ℕ → Order W) → ℕ × W → Type 0
  IsFair side price cell (r, t) =
      (accepts side price (cell r).price ≡ true) × (nought ≺ t) × (t ≼ (cell r).quantity)

  -- Every order but the last that is served gives all it has.
  abbrev pub InFull : (ℕ → Order W) → List (ℕ × W) → Type ℓ
  InFull cell [] = Unit
  InFull cell ((r, t) ∷ []) = Unit
  InFull cell ((r, t) ∷ f ∷ fs) = (t ≡ (cell r).quantity) × InFull cell (f ∷ fs)

  -- The order is out of the question: unacceptable, or used up.
  abbrev pub IsSpent : OrderSide → W → (ℕ → Order W) → List (ℕ × W) → ℕ → Type ℓ
  IsSpent side price cell fs r =
      (accepts side price (cell r).price ≡ false) ⊎ ((after fs cell r).quantity ≡ nought)

  -- Nothing remains, or no acceptable order has anything left.
  abbrev pub IsExhausted : OrderSide → W → (ℕ → Order W) → List ℕ → W → List (ℕ × W) → Type ℓ
  IsExhausted side price cell rs remaining fs =
      (rest_of remaining fs ≼ nought) ⊎ All (IsSpent side price cell fs) rs

  allocate_done :
      (side : OrderSide) (price : W) (cell : ℕ → Order W) (r : ℕ) (rs : List ℕ) (remaining : W)
      → d.le remaining nought ≡ true
      → allocate side price cell remaining (r ∷ rs) ≡ []
  unfolding allocate
  allocate_done side price cell r rs remaining e = rw e

  allocate_served :
      (side : OrderSide) (price : W) (cell : ℕ → Order W) (r : ℕ) (rs : List ℕ) (remaining : W)
      → d.le remaining nought ≡ false
      → accepts side price (cell r).price ≡ true
      → let quantity = min remaining (cell r).quantity in
        allocate side price cell remaining (r ∷ rs)
        ≡ (r, quantity) ∷ allocate side price cell (d.sub remaining quantity) rs
  unfolding allocate
  allocate_served side price cell r rs remaining e g = rw (e, g)

  allocate_skipped :
      (side : OrderSide) (price : W) (cell : ℕ → Order W) (r : ℕ) (rs : List ℕ) (remaining : W)
      → d.le remaining nought ≡ false
      → accepts side price (cell r).price ≡ false
      → allocate side price cell remaining (r ∷ rs) ≡ allocate side price cell remaining rs
  unfolding allocate
  allocate_skipped side price cell r rs remaining e g = rw (e, g)

  skipped_exhausts :
      (side : OrderSide) (price : W) (cell : ℕ → Order W) (r : ℕ) (rs : List ℕ) (remaining : W)
      (fs : List (ℕ × W))
      → accepts side price (cell r).price ≡ false
      → IsExhausted side price cell rs remaining fs
      → IsExhausted side price cell (r ∷ rs) remaining fs
  skipped_exhausts side price cell r rs remaining fs e (inl h) = inl h
  skipped_exhausts side price cell r rs remaining fs e (inr h) = inr (inl e, h)

  module _ (laws : IsIeee W) where
    open laws use {
      le_num, le_trans, le_total, lt_num, lt-eq-not-le, finite_num, lit_finite, sub_self,
      sub_finite,
    }

    le_of_lt : (x y : W) → x ≺ y → x ≼ y
    le_of_lt x y h =
        let (nx, ny) = lt_num x y h in ground (arith, lt-eq-not-le x y nx ny, le_total x y nx ny)

    lt_of_not_le : (x y : W) → IsNum x → IsNum y → d.le x y ≡ false → y ≺ x
    lt_of_not_le x y nx ny h = ground (arith, lt-eq-not-le y x ny nx)

    le_of_not_lt : (x y : W) → IsNum x → IsNum y → d.lt x y ≡ false → y ≼ x
    le_of_not_lt x y nx ny h = ground (arith, lt-eq-not-le x y nx ny)

    zero-IsNum : IsNum {W = W} nought
    zero-IsNum = finite_num nought (lit_finite 0 0 (omega arith))

    -- What the first fill is worth: either the resting order is used up, or nothing remains.
    record IsStep (remaining quantity : W) : Type ℓ where
      positive : nought ≺ min remaining quantity
      within : min remaining quantity ≼ quantity
      left : IsFinite (d.sub remaining (min remaining quantity))
      ends :
          (min remaining quantity ≡ quantity) ⊎ (d.sub remaining (min remaining quantity) ≡ nought)

    step : (x y : W) → IsFinite x → d.le x nought ≡ false → IsFinite y → nought ≺ y → IsStep x y
    unfolding min
    step x y fx hx fy hy =
        let nx = finite_num x fx in
        let ny = finite_num y fy in
        let x_pos = lt_of_not_le x nought nx zero-IsNum hx in
        elim (Bool-cases (d.lt y x)) [
          | inl e ↦ record {
            positive = rw (e, min) hy;
            within = rw (e, min) ny;
            left = rw (e, min) (sub_finite x y fx (le_of_lt nought y hy) (le_of_lt y x e));
            ends = rw (e, min) (inl refl);
          }
          | inr e ↦ record {
            positive = rw (e, min) x_pos;
            within = rw (e, min) (le_of_not_lt y x ny nx e);
            left = rw (e, min, sub_self x fx) (lit_finite 0 0 (omega arith));
            ends = rw (e, min) (inr (sub_self x fx));
          }
        ]

    -- Every fill is at an acceptable price, above zero and within the quantity of its order.
    pub allocate-IsFair :
        (side : OrderSide) (price : W) (cell : ℕ → Order W) (rs : List ℕ) (remaining : W)
        → IsFinite remaining
        → All (IsActive cell) rs
        → All (IsFair side price cell) (allocate side price cell remaining rs)
    unfolding allocate
    allocate-IsFair side price cell [] remaining f a = tt
    allocate-IsFair side price cell (r ∷ rs) remaining f ((fq, hq), a) =
        elim (Bool-cases (d.le remaining nought)) [
          | inl e ↦ rw e tt
          | inr e ↦ elim (Bool-cases (accepts side price (cell r).price)) [
            | inl g ↦
                let one = step remaining (cell r).quantity f e fq hq in
                rw (e, g)
                  (
                    (g, one.positive, one.within),
                    allocate-IsFair side price cell rs
                        (d.sub remaining (min remaining (cell r).quantity)) one.left a,
                  )
            | inr g ↦ rw (e, g) (allocate-IsFair side price cell rs remaining f a)
          ]
        ]

    allocate-nought :
        (side : OrderSide) (price : W) (cell : ℕ → Order W) (rs : List ℕ)
        → allocate side price cell nought rs ≡ []
    unfolding allocate
    allocate-nought side price cell [] = refl
    allocate-nought side price cell (r ∷ rs) = rw zero-IsNum

    InFull-cons :
        (cell : ℕ → Order W) (r : ℕ) (t : W) (fs : List (ℕ × W))
        → t ≡ (cell r).quantity
        → InFull cell fs
        → InFull cell ((r, t) ∷ fs)
    InFull-cons cell r t [] e h = tt
    InFull-cons cell r t (f ∷ fs) e h = (e, h)

    -- Priority: an order is served only after all before it with an acceptable price gave all they
    -- have.
    pub allocate-InFull :
        (side : OrderSide) (price : W) (cell : ℕ → Order W) (rs : List ℕ) (remaining : W)
        → IsFinite remaining
        → All (IsActive cell) rs
        → InFull cell (allocate side price cell remaining rs)
    unfolding allocate
    allocate-InFull side price cell [] remaining f a = tt
    allocate-InFull side price cell (r ∷ rs) remaining f ((fq, hq), a) =
        elim (Bool-cases (d.le remaining nought)) [
          | inl e ↦ rw e tt
          | inr e ↦ elim (Bool-cases (accepts side price (cell r).price)) [
            | inl g ↦
                let one = step remaining (cell r).quantity f e fq hq in
                let left = d.sub remaining (min remaining (cell r).quantity) in
                elim one.ends [
                  | inl whole ↦
                      rw (e, g)
                        (InFull-cons cell r _ _ whole
                          (allocate-InFull side price cell rs left one.left a))
                  | inr none_left ↦ rw (e, g, none_left, allocate-nought side price cell rs) tt
                ]
            | inr g ↦ rw (e, g) (allocate-InFull side price cell rs remaining f a)
          ]
        ]

    IsSpent-cons :
        (side : OrderSide) (price : W) (cell : ℕ → Order W) (r : ℕ) (t : W) (fs : List (ℕ × W))
        (q : ℕ)
        → r ≢ q
        → IsSpent side price cell fs q
        → IsSpent side price cell ((r, t) ∷ fs) q
    unfolding given
    IsSpent-cons side price cell r t fs q ne h = elim (Bool-cases (r == q)) [
      | inl e ↦ absurd (ne ((==_iff r q).0 e))
      | inr e ↦ rw e h
    ]

    IsSpent-self :
        (side : OrderSide) (price : W) (cell : ℕ → Order W) (r : ℕ) (fs : List (ℕ × W))
        → IsFinite (cell r).quantity
        → IsSpent side price cell ((r, (cell r).quantity) ∷ fs) r
    unfolding given set_quantity
    IsSpent-self side price cell r fs f =
        inr (rw ((==_iff r r).1 refl) (sub_self (cell r).quantity f))

    used_up :
        (side : OrderSide) (price : W) (cell : ℕ → Order W) (rs : List ℕ) (x : W)
        → x ≡ nought
        → rest_of x (allocate side price cell x rs) ≼ nought
    unfolding rest_of
    used_up side price cell rs x e = rw (e, allocate-nought side price cell rs) zero-IsNum

    served_exhausts :
        (side : OrderSide) (price : W) (cell : ℕ → Order W) (r : ℕ) (rs : List ℕ) (remaining t : W)
        (fs : List (ℕ × W))
        → t ≡ (cell r).quantity
        → IsFinite (cell r).quantity
        → All (λ q. r ≢ q) rs
        → IsExhausted side price cell rs (d.sub remaining t) fs
        → IsExhausted side price cell (r ∷ rs) remaining ((r, t) ∷ fs)
    unfolding rest_of
    served_exhausts side price cell r rs remaining t fs e f fresh (inl h) = inl h
    served_exhausts side price cell r rs remaining t fs e f fresh (inr h) = inr (
      rw e (IsSpent-self side price cell r fs f),
      All-map2 (IsSpent-cons side price cell r t fs) rs fresh h,
    )

    -- Exhaustion: either the incoming quantity is used up, or every acceptable order is.
    pub allocate_exhausts :
        (side : OrderSide) (price : W) (cell : ℕ → Order W) (rs : List ℕ) (remaining : W)
        → IsFinite remaining
        → All (IsActive cell) rs
        → Distinct rs
        → IsExhausted side price cell rs remaining (allocate side price cell remaining rs)
    allocate_exhausts side price cell [] remaining f a dis = inr tt
    allocate_exhausts side price cell (r ∷ rs) remaining f ((fq, hq), a) (fresh, dis) =
        let quantity = min remaining (cell r).quantity in
        let left = d.sub remaining quantity in
        let whole = IsExhausted side price cell (r ∷ rs) remaining in
        elim (Bool-cases (d.le remaining nought)) [
          | inl e ↦
              subst whole (sym (allocate_done side price cell r rs remaining e))
                (inl (unfold rest_of in e))
          | inr e ↦ elim (Bool-cases (accepts side price (cell r).price)) [
            | inl g ↦
                let one = step remaining (cell r).quantity f e fq hq in
                subst whole (sym (allocate_served side price cell r rs remaining e g))
                  (elim one.ends [
                    | inl all ↦
                        served_exhausts side price cell r rs remaining quantity
                          (allocate side price cell left rs) all fq fresh
                          (allocate_exhausts side price cell rs left one.left a dis)
                    | inr none_left ↦
                        inl (unfold rest_of in used_up side price cell rs left none_left)
                  ])
            | inr g ↦ subst whole (sym (allocate_skipped side price cell r rs remaining e g)) (
                skipped_exhausts side price cell r rs remaining
                  (allocate side price cell remaining rs) g
                  (allocate_exhausts side price cell rs remaining f a dis))
          ]
        ]

  -- Without rounding, what is given and what remains add up to the incoming quantity.
  pub sum_of : List (ℕ × W) → W
  sum_of [] = nought
  sum_of ((r, t) ∷ fs) = d.add t (sum_of fs)

  pub rest_of_lem :
      (exact : IsExact W) (remaining : W) (fs : List (ℕ × W))
      → d.add (sum_of fs) (rest_of remaining fs) ≡ remaining
  unfolding sum_of rest_of
  rest_of_lem exact remaining [] = exact.zero_add remaining
  rest_of_lem exact remaining ((r, t) ∷ fs) =
      exact.add_assoc t (sum_of fs) _
      ∙ ap (d.add t) (rest_of_lem exact (d.sub remaining t) fs)
      ∙ exact.add_comm t _
      ∙ exact.sub_add remaining t
