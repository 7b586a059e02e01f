-- ===== src/Validation/Symbols.antt =====
-- The list of valid symbols as a set.
use live_trading_engine.Common.{
  has_text, IsDistinct, ◌≡◌, inl, inr, refl, Bool-cases, Bool, true, false, not, ◌||◌, ◌&&◌, List,
  [], ◌∷◌, ◌++◌, ◌∙◌, arith, Text, text_eq, text_eq_iff, if◌then◌else◌,
}
use live_trading_engine.Validation.{
  OrderValidator, without, is_listed, is_empty, is_valid_symbol, add_valid_symbol,
  remove_valid_symbol,
}

has_text-append :
    (ss : List Text) (s t : Text) → has_text (ss ++ (s ∷ [])) t ≡ (has_text ss t || text_eq s t)
unfolding has_text
has_text-append [] s t = ground arith
has_text-append (x ∷ xs) s t = ground (arith, has_text-append xs s t)

has_text-without :
    (ss : List Text) (s t : Text) → has_text (without ss s) t ≡ (not (text_eq s t) && has_text ss t)
unfolding has_text without
has_text-without [] s t = ground arith
has_text-without (x ∷ xs) s t =
    ground (arith, text_eq_iff s t, text_eq_iff x s, text_eq_iff x t, has_text-without xs s t)

IsDistinct-append :
    (ss : List Text) (s : Text)
    → IsDistinct ss
    → has_text ss s ≡ false
    → IsDistinct (ss ++ (s ∷ []))
unfolding has_text
IsDistinct-append [] s h k = (refl, tt)
IsDistinct-append (x ∷ xs) s h k =
    let e = has_text-append xs s x in
    (ground (arith, text_eq_iff s x, text_eq_iff x s), IsDistinct-append xs s h.1 (ground arith))

IsDistinct-without : (ss : List Text) (s : Text) → IsDistinct ss → IsDistinct (without ss s)
unfolding without
IsDistinct-without [] s h = tt
IsDistinct-without (x ∷ xs) s h = elim (Bool-cases (text_eq x s)) [
  | inl e ↦ rw e (IsDistinct-without xs s h.1)
  | inr e ↦ rw e (ground (arith, has_text-without xs s x, h.0), IsDistinct-without xs s h.1)
]

abbrev pub is_nil : List Text → Bool
is_nil [] = true
is_nil (s ∷ ss) = false

is_listed_lem :
    (ss : List Text) (t : Text)
    → is_listed ss t ≡ (if is_nil ss then not (is_empty t) else has_text ss t)
unfolding is_listed
is_listed_lem [] t = refl
is_listed_lem (s ∷ ss) t = refl

-- A list that has some symbol is not empty.
is_listed_of_has :
    (ss : List Text) (s t : Text) → has_text ss s ≡ true → is_listed ss t ≡ has_text ss t
unfolding is_listed has_text
is_listed_of_has [] s t h = ground arith
is_listed_of_has (x ∷ xs) s t h = refl

has_text_of_has :
    (ss : List Text) (s t : Text)
    → has_text ss s ≡ true
    → has_text ss t ≡ (text_eq s t || has_text ss t)
unfolding has_text
has_text_of_has [] s t h = ground arith
has_text_of_has (x ∷ xs) s t h =
    ground (arith, text_eq_iff s t, text_eq_iff x s, text_eq_iff x t, has_text_of_has xs s t)

module _ {ℓ} {W : Type ℓ} (v : OrderValidator W) (s : Text) where
  added-IsDistinct : IsDistinct v.valid_symbols → IsDistinct (add_valid_symbol v s).valid_symbols
  unfolding add_valid_symbol
  added-IsDistinct h = elim (Bool-cases (has_text v.valid_symbols s)) [
    | inl e ↦ rw e h
    | inr e ↦ rw e (IsDistinct-append v.valid_symbols s h e)
  ]

  is_valid_symbol-add :
      (t : Text)
      → is_valid_symbol (add_valid_symbol v s) t ≡ (text_eq s t || has_text v.valid_symbols t)
  unfolding add_valid_symbol is_valid_symbol
  is_valid_symbol-add t = elim (Bool-cases (has_text v.valid_symbols s)) [
    | inl e ↦ rw e (is_listed_of_has v.valid_symbols s t e ∙ has_text_of_has v.valid_symbols s t e)
    | inr e ↦ rw e (
        is_listed_of_has (v.valid_symbols ++ (s ∷ [])) s t
          (ground (arith, has_text-append v.valid_symbols s s, text_eq_iff s s))
        ∙ ground (arith, has_text-append v.valid_symbols s t))
  ]

  is_valid_symbol-remove :
      (t : Text)
      → is_valid_symbol (remove_valid_symbol v s) t ≡ (
          if is_nil (without v.valid_symbols s)
          then not (is_empty t)
          else not (text_eq s t) && has_text v.valid_symbols t)
  unfolding remove_valid_symbol is_valid_symbol
  is_valid_symbol-remove t =
      ground
        (arith, is_listed_lem (without v.valid_symbols s) t, has_text-without v.valid_symbols s t)

  -- What the validator answers for a symbol once another is added to, or removed from, its list:
  -- the list is a set, save that a list which becomes empty admits every symbol but the empty one.
  pub symbols_lem :
      IsDistinct v.valid_symbols
      → IsDistinct (add_valid_symbol v s).valid_symbols
        × IsDistinct (remove_valid_symbol v s).valid_symbols
        × ((t : Text)
            → is_valid_symbol (add_valid_symbol v s) t
              ≡ (text_eq s t || has_text v.valid_symbols t))
        × ((t : Text)
            → is_valid_symbol (remove_valid_symbol v s) t ≡ (
                if is_nil (without v.valid_symbols s)
                then not (is_empty t)
                else not (text_eq s t) && has_text v.valid_symbols t))
  unfolding remove_valid_symbol
  symbols_lem h = (
    added-IsDistinct h,
    IsDistinct-without v.valid_symbols s h,
    is_valid_symbol-add,
    is_valid_symbol-remove,
  )
