-- ===== src/OrderBook/Push.antt =====
-- `buy_orders_[price].push_back(order)`: the levels stay ordered, and the order book is a queue
-- with price-time priority.
use live_trading_engine.Common.{
  ℕ, ◌≡◌, refl, sym, ap, ◌∙◌, ◌≢◌, Bool-cases, inl, inr, Bool, true, false, List, [], ◌∷◌, ◌++◌,
  arith, All, All-append, All-map,
}
use mathlib.Core.List.{append_assoc}
use live_trading_engine.Common.Double.{Double, IsNum, IsIeee}
use live_trading_engine.Order.{OrderSide}
use live_trading_engine.OrderBook.Ladder.{
  Levels, flatten, push_level, place, side_before, HasPrice, IsBehind, IsLadder, before_asym,
  not_before_trans, before_trans, before_of_not, before_of_not_left, before_irrefl,
}

module _ {ℓ} {W : Type ℓ} where
  -- The newcomer passes all that its price is not better than.
  place-append :
      (before : W → W → Bool) (price : ℕ → W) (r : ℕ) (xs ys : List ℕ)
      → All (λ x. before (price r) (price x) ≡ false) xs
      → place before price r (xs ++ ys) ≡ xs ++ place before price r ys
  unfolding place
  place-append before price r [] ys h = refl
  place-append before price r (x ∷ xs) ys h =
      rw h.0 (ap (◌∷◌ x) (place-append before price r xs ys h.1))

snoc-ne-nil {ℓ} : {A : Type ℓ} (xs : List A) (a : A) → xs ++ (a ∷ []) ≢ []
snoc-ne-nil [] a e = cc
snoc-ne-nil (x ∷ xs) a e = cc

module _ {ℓ} {W : Type ℓ} ⦃d : Double W⦄ (laws : IsIeee W) (s : OrderSide) (price : ℕ → W) where
  push_level-IsBehind :
      (q : W) (r : ℕ) (m : Levels W)
      → side_before s q (price r) ≡ true
      → All (IsBehind s q) m
      → All (IsBehind s q) (push_level (side_before s) (price r) r m)
  unfolding push_level
  push_level-IsBehind q r [] h a = (h, tt)
  push_level-IsBehind q r ((p, rs) ∷ m) h a = ground (arith, push_level-IsBehind q r m h a.1)

  HasPrice-self : (r : ℕ) → IsNum (price r) → HasPrice s price (price r) r
  HasPrice-self r n = (n, before_irrefl laws s (price r), before_irrefl laws s (price r))

  pub push_level-IsLadder :
      (r : ℕ) (m : Levels W)
      → IsNum (price r)
      → IsLadder s price m
      → IsLadder s price (push_level (side_before s) (price r) r m)
  unfolding push_level
  push_level-IsLadder r [] n l = (n, (λ e. cc), (HasPrice-self r n, tt), tt, tt)
  push_level-IsLadder r ((q, rs) ∷ m) n (nq, ne, hp, hb, lm) =
      elim (Bool-cases (side_before s q (price r))) [
        | inl e ↦ rw e (nq, ne, hp, push_level-IsBehind q r m e hb, push_level-IsLadder r m n lm)
        | inr e ↦ elim (Bool-cases (side_before s (price r) q)) [
          | inl f ↦
              rw (e, f)
                (
                  n,
                  (λ e. cc),
                  (HasPrice-self r n, tt),
                  (f, All-map (λ k h. before_trans laws s (price r) q k.0 f h) m hb),
                  (nq, ne, hp, hb, lm),
                )
          | inr f ↦
              rw (e, f)
                (
                  nq,
                  snoc-ne-nil rs r,
                  All-append (HasPrice s price q) rs (r ∷ []) hp ((n, f, e), tt),
                  hb,
                  lm,
                )
        ]
      ]

  -- An order whose price is better than every level goes to the front.
  place_front :
      (r : ℕ) (m : Levels W)
      → IsLadder s price m
      → All (IsBehind s (price r)) m
      → place (side_before s) price r (flatten m) ≡ r ∷ flatten m
  unfolding place flatten
  place_front r [] l b = refl
  place_front r ((q, []) ∷ m) l b = absurd (l.1 refl)
  place_front r ((q, x ∷ xs) ∷ m) (nq, ne, (hx, hxs), hb, lm) b =
      rw (before_of_not laws s (price r) q (price x) hx.0 b.0 hx.1)

  -- The orders of a level that the newcomer's price does not beat.
  passed :
      (p q : W) (rs : List ℕ)
      → IsNum p
      → IsNum q
      → side_before s p q ≡ false
      → All (HasPrice s price q) rs
      → All (λ x. side_before s p (price x) ≡ false) rs
  passed p q rs np nq h =
      All-map (λ x hx. not_before_trans laws s p q (price x) np nq hx.0 h hx.2) rs

  pub flatten-push_level :
      (r : ℕ) (m : Levels W)
      → IsNum (price r)
      → IsLadder s price m
      → flatten (push_level (side_before s) (price r) r m)
        ≡ place (side_before s) price r (flatten m)
  unfolding push_level flatten
  flatten-push_level r [] n l = unfold place in refl
  flatten-push_level r ((q, []) ∷ m) n l = absurd (l.1 refl)
  flatten-push_level r ((q, x ∷ xs) ∷ m) n (nq, ne, hp, hb, lm) =
      let rs = x ∷ xs in
      let skip = λ (h : side_before s (price r) q ≡ false).
        place-append (side_before s) price r rs (flatten m) (passed (price r) q rs n nq h hp) in
      elim (Bool-cases (side_before s q (price r))) [
        | inl e ↦ rw e (
            ap (λ k. rs ++ k) (flatten-push_level r m n lm)
            ∙ sym (skip (before_asym laws s q (price r) e)))
        | inr e ↦ elim (Bool-cases (side_before s (price r) q)) [
          | inl f ↦
              rw (e, f)
                (sym (
                  place_front r ((q, rs) ∷ m) (nq, ne, hp, hb, lm)
                    (f, All-map (λ k h. before_trans laws s (price r) q k.0 f h) m hb)))
          | inr f ↦
              rw (e, f)
                (append_assoc rs (r ∷ []) (flatten m)
                  ∙ ap (λ k. rs ++ k)
                      (sym (
                        place_front r m lm
                          (All-map (λ k h. before_of_not_left laws s q k.0 (price r) n h e) m hb)))
                  ∙ sym (skip f))
        ]
      ]
