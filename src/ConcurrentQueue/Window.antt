-- ===== src/ConcurrentQueue/Window.antt =====
-- As many consecutive positions as the ring has slots: each slot is that of exactly one of them.
use live_trading_engine.Common.{
  ℕ, zero, suc, ◌+◌, ◌-◌, ◌*◌, ◌/◌, ◌%◌, ◌≡◌, ◌≤◌, ◌<◌, subst, ap, ◌∙◌, arith,
}
use native.Mathlib.Omega.{div_any}
use native.Mathlib.Nat.{mod-lt, add-mod-mod, mul-le-mul_left, mul-suc}

-- A larger quotient is larger by a whole divisor at least.
next_multiple : (c a b : ℕ) → a < b → c * a + c ≤ c * b
next_multiple c a b h = subst (λ x. x ≤ c * b) (mul-suc c a) (mul-le-mul_left c h)

pub same_slot :
    (c low p q : ℕ) → 0 < c → low ≤ p → p < low + c → low ≤ q → q < low + c → p % c ≡ q % c → p ≡ q
same_slot c low p q hc a b d e h = ground (
  arith,
  div_any p c,
  div_any q c,
  h,
  next_multiple c (p / c) (q / c),
  next_multiple c (q / c) (p / c),
)

-- A number that reaches the divisor is its remainder and a divisor more at least.
remainder_below : (k c x r : ℕ) → c * k + r ≡ x → r < c → c ≤ x → r + c ≤ x
remainder_below zero c x r e h l = omega arith
remainder_below (suc k) c x r e h l = omega (arith, mul-suc c k)

-- A position above the window shares its slot with one in the window, a round or more below.
pub below_in_window :
    (c low p : ℕ)
    → 0 < c
    → low + c ≤ p
    → (q : ℕ) × (low ≤ q) × (q < low + c) × (q + c ≤ p) × (q % c ≡ p % c)
below_in_window c low p hc h =
    let x : ℕ = p - low in
    let f : (p - low) % c < c = mod-lt (p - low) hc in
    let s : low + (p - low) ≡ p = omega arith in
    (
      low + (p - low) % c,
      omega arith,
      omega (arith, f),
      omega (
        arith,
        remainder_below ((p - low) / c) c (p - low) ((p - low) % c) (div_any (p - low) c) f
            (omega arith),
      ),
      add-mod-mod low (p - low) c ∙ ap (λ y. y % c) s,
    )
