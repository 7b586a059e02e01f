-- ===== src/Api/Leaderboard/Falling.antt =====
-- The order and the ranks of the entries of a leaderboard.
use live_trading_engine.Common.{
  ℕ, suc, ◌≡◌, ap, ◌∙◌, inl, inr, true, false, not, List, [], ◌∷◌, arith, All, Text,
}
use mathlib.Core.List.{Perm}
use mathlib.Core.List.Perm
use mathlib.Core.List
use live_trading_engine.Common.Double.{Double, IsIeee, IsNum, ◌≼◌}
use live_trading_engine.Common.Sorting.{IsSorted}
use live_trading_engine.Api.Leaderboard.{Shown, Entry, is_better}

module _ {ℓ} {W : Type ℓ} ⦃d : Double W⦄ where
  -- Cash and the market values that are shown, added up from the left.
  abbrev pub total : W → List (Shown W) → W
  total acc [] = acc
  total acc (p ∷ ps) = total (d.add acc p.market_value) ps

  abbrev pub pairs : List (Entry W) → List (Text × W)
  pairs [] = []
  pairs (x ∷ xs) = (x.user_id, x.net_worth) ∷ pairs xs

  abbrev pub ids : List (Text × W) → List Text
  ids ps = List.map (λ p. p.0) ps

  -- Each net worth is at most the one before it.
  abbrev pub Descending : List (Text × W) → Type 0
  Descending [] = Unit
  Descending (p ∷ []) = Unit
  Descending (p ∷ q ∷ ps) = (q.1 ≼ p.1) × Descending (q ∷ ps)

  -- The ranks count from a number on.
  abbrev pub Ranked : ℕ → List (Entry W) → Type 0
  Ranked n [] = Unit
  Ranked n (x ∷ xs) = (x.rank ≡ n) × Ranked (suc n) xs

  abbrev pub NumPair : Text × W → Type 0
  NumPair p = IsNum p.1

  pub better_asym : IsIeee W → (p q : Text × W) → is_better q p ≡ true → is_better p q ≡ false
  better_asym l p q e =
      let n = l.lt_num p.1 q.1 e in
      elim (l.le_total p.1 q.1 n.0 n.1) [
        | inl h ↦ l.lt-eq-not-le q.1 p.1 n.1 n.0 ∙ ap not h
        | inr h ↦ absurd (cc (e, l.lt-eq-not-le p.1 q.1 n.0 n.1 ∙ ap not h))
      ]

  le_of_not_lt : IsIeee W → (x y : W) → IsNum x → IsNum y → d.lt x y ≡ false → y ≼ x
  le_of_not_lt l x y m n e = ground (arith, l.lt-eq-not-le x y m n)

  pub IsSorted-Descending :
      IsIeee W → (ps : List (Text × W)) → All NumPair ps → IsSorted is_better ps → Descending ps
  IsSorted-Descending l [] n s = tt
  IsSorted-Descending l (p ∷ []) n s = tt
  IsSorted-Descending l (p ∷ q ∷ ps) n s =
      (le_of_not_lt l p.1 q.1 n.0 n.1.0 s.0, IsSorted-Descending l (q ∷ ps) n.1 s.1)

  pub ids-Perm : {ps qs : List (Text × W)} → Perm ps qs → Perm (ids ps) (ids qs)
  ids-Perm p = Perm.map (λ q. q.0) p
