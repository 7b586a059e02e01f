-- ===== src/OrderBook/Ladder.antt =====
-- std::map<double, std::vector<std::shared_ptr<Order>>, Compare>: the price levels of one side.
use live_trading_engine.Common.{
  ℕ, ◌≡◌, Bool-cases, inl, inr, Bool, true, false, List, [], ◌∷◌, ◌++◌, arith, if◌then◌else◌, All,
  ◌≢◌,
}
use live_trading_engine.Common.Double.{Double, IsNum, IsIeee}
use live_trading_engine.Order.{OrderSide, buy, sell}

abbrev pub Levels {ℓ} : Type ℓ → Type ℓ
Levels W = List (W × List ℕ)

module _ {ℓ} {W : Type ℓ} where
  -- The iteration of getBuyOrders and getSellOrders: level after level, each in its own order.
  unfoldable pub flatten : Levels W → List ℕ
  flatten [] = []
  flatten ((p, rs) ∷ m) = rs ++ flatten m

  -- `m[price].push_back(r)`, for the comparison `before` of the map.
  unfoldable pub push_level : (W → W → Bool) → W → ℕ → Levels W → Levels W
  push_level before p r [] = (p, r ∷ []) ∷ []
  push_level before p r ((q, rs) ∷ m) =
      if before q p
      then (q, rs) ∷ push_level before p r m
      else if before p q
      then (p, r ∷ []) ∷ (q, rs) ∷ m
      else (q, rs ++ (r ∷ [])) ∷ m

  -- What a queue with price-time priority does with a newcomer: it goes in front of the first order
  -- that its price is strictly better than, and so behind all that came earlier at its price.
  unfoldable pub place : (W → W → Bool) → (ℕ → W) → ℕ → List ℕ → List ℕ
  place before price r [] = r ∷ []
  place before price r (x ∷ xs) =
      if before (price r) (price x) then r ∷ x ∷ xs else x ∷ place before price r xs

module _ {ℓ} {W : Type ℓ} ⦃d : Double W⦄ where
  -- std::greater for bids, std::less for asks.
  abbrev pub side_before : OrderSide → W → W → Bool
  side_before buy a b = d.lt b a
  side_before sell a b = d.lt a b

  -- The orders at a level have its price; the levels are not empty and strictly ordered.
  abbrev pub HasPrice : OrderSide → (ℕ → W) → W → ℕ → Type 0
  HasPrice s price p r =
      IsNum (price r) × (side_before s (price r) p ≡ false) × (side_before s p (price r) ≡ false)

  abbrev pub IsBehind : OrderSide → W → W × List ℕ → Type 0
  IsBehind s p l = side_before s p l.0 ≡ true

  abbrev pub IsLadder : OrderSide → (ℕ → W) → Levels W → Type ℓ
  IsLadder s price [] = Unit {ℓ}
  IsLadder s price ((p, rs) ∷ m) =
      IsNum p × (rs ≢ []) × All (HasPrice s price p) rs × All (IsBehind s p) m × IsLadder s price m

  module _ (laws : IsIeee W) where
    open laws use {lt_num, lt-eq-not-le, le_total, le_trans}

    pub before-IsNum : (s : OrderSide) (x y : W) → side_before s x y ≡ true → IsNum x × IsNum y
    before-IsNum buy x y h = ground (arith, lt_num y x)
    before-IsNum sell x y h = lt_num x y h

    pub before_asym :
        (s : OrderSide) (x y : W) → side_before s x y ≡ true → side_before s y x ≡ false
    before_asym buy x y h =
        ground (arith, lt_num y x, lt-eq-not-le y x, lt-eq-not-le x y, le_total x y)
    before_asym sell x y h =
        ground (arith, lt_num x y, lt-eq-not-le y x, lt-eq-not-le x y, le_total x y)

    -- The negation of a strict order on numbers is transitive.
    pub not_before_trans :
        (s : OrderSide) (x y z : W)
        → IsNum x
        → IsNum y
        → IsNum z
        → side_before s x y ≡ false
        → side_before s y z ≡ false
        → side_before s x z ≡ false
    not_before_trans buy x y z a b c h k =
        ground (arith, lt-eq-not-le y x, lt-eq-not-le z y, lt-eq-not-le z x, le_trans x y z)
    not_before_trans sell x y z a b c h k =
        ground (arith, lt-eq-not-le x y, lt-eq-not-le y z, lt-eq-not-le x z, le_trans z y x)

    pub before_trans :
        (s : OrderSide) (x y z : W)
        → side_before s x y ≡ true
        → side_before s y z ≡ true
        → side_before s x z ≡ true
    before_trans s x y z h k = elim (Bool-cases (side_before s x z)) [
      | inl e ↦ e
      | inr e ↦
          let (nx, ny) = before-IsNum s x y h in
          let nz = (before-IsNum s y z k).1 in
          cc (not_before_trans s x z y nx nz ny e (before_asym s y z k), h)
    ]

    -- What comes before a value comes before all that is not before that value.
    pub before_of_not :
        (s : OrderSide) (x y z : W)
        → IsNum z
        → side_before s x y ≡ true
        → side_before s z y ≡ false
        → side_before s x z ≡ true
    before_of_not s x y z nz h k = elim (Bool-cases (side_before s x z)) [
      | inl e ↦ e
      | inr e ↦ let (nx, ny) = before-IsNum s x y h in cc (not_before_trans s x z y nx nz ny e k, h)
    ]

    pub before_of_not_left :
        (s : OrderSide) (x y z : W)
        → IsNum z
        → side_before s x y ≡ true
        → side_before s x z ≡ false
        → side_before s z y ≡ true
    before_of_not_left s x y z nz h k = elim (Bool-cases (side_before s z y)) [
      | inl e ↦ e
      | inr e ↦ let (nx, ny) = before-IsNum s x y h in cc (not_before_trans s x z y nx nz ny k e, h)
    ]

    pub before_irrefl : (s : OrderSide) (x : W) → side_before s x x ≡ false
    before_irrefl s x = elim (Bool-cases (side_before s x x)) [
      | inl e ↦ before_asym s x x e
      | inr e ↦ e
    ]
