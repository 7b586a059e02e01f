-- ===== src/Matching/Allocation.antt =====
-- The loop without its heap: how much of the incoming quantity goes to which resting order.
use live_trading_engine.Common.{
  ℕ, ◌+◌, ◌%◌, ◌^◌, ◌≡◌, refl, ◌≢◌, Option, none, some, List, [], ◌∷◌, if◌then◌else◌, All, ◌==◌,
}
use live_trading_engine.Common.Double.{Double, nought, min}
use live_trading_engine.Order.{Order, OrderSide, set_quantity}
use live_trading_engine.Matching.Loop.{Trade, create_trade, buyer, seller, accepts}

-- No pointer stands twice in the list.
abbrev pub Distinct : List ℕ → Type 0
Distinct [] = Unit
Distinct (r ∷ rs) = All (λ q. r ≢ q) rs × Distinct rs

module _ {ℓ} {W : Type ℓ} where
  -- What a resting order gave.
  unfoldable pub given : List (ℕ × W) → ℕ → Option W
  given [] q = none
  given ((r, t) ∷ fs) q = if r == q then some t else given fs q

module _ {ℓ} {W : Type ℓ} ⦃d : Double W⦄ where
  -- The resting orders are served in their order, each as far as its quantity and the rest reach;
  -- those whose price is not acceptable are skipped.
  unfoldable pub allocate : OrderSide → W → (ℕ → Order W) → W → List ℕ → List (ℕ × W)
  allocate side price cell remaining [] = []
  allocate side price cell remaining (r ∷ rs) =
      let quantity = min remaining (cell r).quantity in
      let served = (r, quantity) ∷ allocate side price cell (d.sub remaining quantity) rs in
      let skipped = allocate side price cell remaining rs in
      if d.le remaining nought
      then []
      else if accepts side price (cell r).price
      then served
      else skipped

  -- What remains of the incoming quantity.
  unfoldable pub rest_of : W → List (ℕ × W) → W
  rest_of remaining [] = remaining
  rest_of remaining ((r, t) ∷ fs) = rest_of (d.sub remaining t) fs

  -- The trades of an allocation, numbered from `n`.
  unfoldable pub trades_of :
      (ℕ → ℕ) → Order W → (ℕ → Order W) → W → ℕ → List (ℕ × W) → List (Trade W)
  trades_of clock o cell price n [] = []
  trades_of clock o cell price n ((r, t) ∷ fs) =
      create_trade clock n (buyer o.side o (cell r)) (seller o.side o (cell r)) t price
      ∷ trades_of clock o cell price ((n + 1) % 2 ^ 64) fs

  -- A resting order after the allocation: its quantity is what it did not give.
  abbrev pub minus : Order W → Option W → Order W
  minus o none = o
  minus o (some t) = set_quantity o (d.sub o.quantity t)

  abbrev pub after : List (ℕ × W) → (ℕ → Order W) → ℕ → Order W
  after fs cell q = minus (cell q) (given fs q)

  pub allocate_congr :
      (side : OrderSide) (price : W) (c c' : ℕ → Order W) (remaining : W) (rs : List ℕ)
      → All (λ q. c' q ≡ c q) rs
      → allocate side price c' remaining rs ≡ allocate side price c remaining rs
  unfolding allocate
  allocate_congr side price c c' remaining [] h = refl
  allocate_congr side price c c' remaining (r ∷ rs) (e, h) = rw (
    e,
    allocate_congr side price c c' remaining rs h,
    allocate_congr side price c c' (d.sub remaining (min remaining (c r).quantity)) rs h,
  )
