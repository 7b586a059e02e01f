-- ===== src/Common/Sorting.antt =====
-- std::sort by a comparison. It leaves the order of equal elements open; here the earlier one comes
-- first.
use live_trading_engine.Common.{
  ◌≡◌, inl, inr, Bool-cases, Bool, true, false, List, [], ◌∷◌, if◌then◌else◌, All,
}
use mathlib.Core.List.{Perm}
use mathlib.Core.List.Perm

module _ {ℓ} {A : Type ℓ} (before : A → A → Bool) where
  unfoldable pub insert_by : A → List A → List A
  insert_by x [] = x ∷ []
  insert_by x (y ∷ ys) = let rest = insert_by x ys in if before y x then y ∷ rest else x ∷ y ∷ ys

  unfoldable pub sort : List A → List A
  unfolding insert_by
  sort [] = []
  sort (x ∷ xs) = insert_by x (sort xs)

  -- No element comes after one that it should precede.
  abbrev pub Starts : A → List A → Type 0
  Starts x [] = Unit
  Starts x (y ∷ ys) = before y x ≡ false

  abbrev pub IsSorted : List A → Type 0
  IsSorted [] = Unit
  IsSorted (x ∷ xs) = Starts x xs × IsSorted xs

  insert_by-Perm : (x : A) (xs : List A) → Perm (insert_by x xs) (x ∷ xs)
  unfolding insert_by
  insert_by-Perm x [] = Perm.refl _
  insert_by-Perm x (y ∷ ys) = elim (Bool-cases (before y x)) [
    | inl e ↦ rw e (Perm.trans (Perm.cons y (insert_by-Perm x ys)) (Perm.swap _ _ _))
    | inr e ↦ rw e (Perm.refl _)
  ]

  pub sort-Perm : (xs : List A) → Perm (sort xs) xs
  unfolding sort
  sort-Perm [] = Perm.refl _
  sort-Perm (x ∷ xs) = Perm.trans (insert_by-Perm x (sort xs)) (Perm.cons x (sort-Perm xs))

  insert_by-All {κ} :
      (P : A → Type κ) (x : A) (xs : List A) → P x → All P xs → All P (insert_by x xs)
  unfolding insert_by
  insert_by-All P x [] h hs = (h, tt)
  insert_by-All P x (y ∷ ys) h hs = elim (Bool-cases (before y x)) [
    | inl e ↦ rw e (hs.0, insert_by-All P x ys h hs.1)
    | inr e ↦ rw e (h, hs)
  ]

  pub sort-All {κ} : (P : A → Type κ) (xs : List A) → All P xs → All P (sort xs)
  unfolding sort
  sort-All P [] h = tt
  sort-All P (x ∷ xs) h = insert_by-All P x (sort xs) h.0 (sort-All P xs h.1)

  module _ (asym : (x y : A) → before y x ≡ true → before x y ≡ false) where
    insert_by-Starts :
        (x y : A) (ys : List A) → before y x ≡ true → Starts y ys → Starts y (insert_by x ys)
    unfolding insert_by
    insert_by-Starts x y [] e s = asym x y e
    insert_by-Starts x y (z ∷ zs) e s = elim (Bool-cases (before z x)) [
      | inl f ↦ rw f s
      | inr f ↦ rw f (asym x y e)
    ]

    insert_by-IsSorted : (x : A) (xs : List A) → IsSorted xs → IsSorted (insert_by x xs)
    unfolding insert_by
    insert_by-IsSorted x [] s = (tt, tt)
    insert_by-IsSorted x (y ∷ ys) s = elim (Bool-cases (before y x)) [
      | inl e ↦ rw e (insert_by-Starts x y ys e s.0, insert_by-IsSorted x ys s.1)
      | inr e ↦ rw e (e, s)
    ]

    pub sort-IsSorted : (xs : List A) → IsSorted (sort xs)
    unfolding sort
    sort-IsSorted [] = tt
    sort-IsSorted (x ∷ xs) = insert_by-IsSorted x (sort xs) (sort-IsSorted xs)
