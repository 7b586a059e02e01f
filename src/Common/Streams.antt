-- ===== src/Common/Streams.antt =====
-- The pieces of the C++ standard library that take texts apart: std::getline, std::string::find
-- with substr, trimming, and reading numbers.
use live_trading_engine.Common.{
  ℕ, ◌≤◌, ◌≡◌, refl, sym, ap, subst, ◌∙◌, Bool, false, ◌&&◌, ◌||◌, leb, ◌==◌, if◌then◌else◌, Option,
  none, some, List, [], ◌∷◌, ◌++◌, All, All-append, arith, Text,
}

-- No byte of the text is `c`.
abbrev pub Without : ℕ → Text → Type 0
Without c t = All (λ x. (x == c) ≡ false) t

abbrev push_char : ℕ → List Text → List Text
push_char c [] = (c ∷ []) ∷ []
push_char c (t ∷ ts) = (c ∷ t) ∷ ts

-- The texts that a loop of std::getline reads: a delimiter at the end of the stream starts no text.
unfoldable pub getlines : ℕ → Text → List Text
getlines d [] = []
getlines d (c ∷ cs) = let rest = getlines d cs in if c == d then [] ∷ rest else push_char c rest

pub getlines_more :
    (d : ℕ) (t rest : Text) → Without d t → getlines d (t ++ (d ∷ rest)) ≡ t ∷ getlines d rest
unfolding getlines
getlines_more d [] rest h = ground arith
getlines_more d (c ∷ cs) rest h = rw (h.0, getlines_more d cs rest h.1) refl

pub getlines_last : (d c : ℕ) (t : Text) → Without d (c ∷ t) → getlines d (c ∷ t) ≡ (c ∷ t) ∷ []
unfolding getlines
getlines_last d c [] h = rw h.0 refl
getlines_last d c (b ∷ t) h = rw (h.0, getlines_last d b t h.1) refl

-- What stands before and behind the first `c`, if there is one.
unfoldable pub split_at : ℕ → Text → Option (Text × Text)
split_at c [] = none
split_at c (x ∷ xs) =
    if x == c
    then some ([], xs)
    else (elim (split_at c xs) [ none ↦ none | some s ↦ some (x ∷ s.0, s.1) ])

pub split_at-append :
    (c : ℕ) (t rest : Text) → Without c t → split_at c (t ++ (c ∷ rest)) ≡ some (t, rest)
unfolding split_at
split_at-append c [] rest h = ground arith
split_at-append c (x ∷ xs) rest h = rw (h.0, split_at-append c xs rest h.1) refl

pub split_at-none : (c : ℕ) (t : Text) → Without c t → split_at c t ≡ none
unfolding split_at
split_at-none c [] h = refl
split_at-none c (x ∷ xs) h = rw (h.0, split_at-none c xs h.1) refl

-- The text after its leading bytes that are `c`.
unfoldable pub skip : ℕ → Text → Text
skip c [] = []
skip c (x ∷ xs) = if x == c then skip c xs else x ∷ xs

-- pop_back, if the last byte is `c`.
unfoldable pub pop_last : ℕ → Text → Text
pop_last c [] = []
pop_last c (x ∷ []) = if x == c then [] else x ∷ []
pop_last c (x ∷ y ∷ t) = x ∷ pop_last c (y ∷ t)

pub pop_last-append : (c : ℕ) (t : Text) → pop_last c (t ++ (c ∷ [])) ≡ t
unfolding pop_last
pop_last-append c [] = ground arith
pop_last-append c (x ∷ []) = ground arith
pop_last-append c (x ∷ y ∷ t) = ap (λ r. x ∷ r) (pop_last-append c (y ∷ t))

-- std::isspace
unfoldable pub is_space : ℕ → Bool
is_space c = c == 32 || (leb 9 c && leb c 13)

unfoldable pub skip_spaces : Text → Text
skip_spaces [] = []
skip_spaces (x ∷ xs) = if is_space x then skip_spaces xs else x ∷ xs

unfoldable pub is_digit : ℕ → Bool
is_digit c = leb 48 c && leb c 57

-- The parts with `d` between them.
unfoldable pub join : ℕ → List Text → Text
join d [] = []
join d (t ∷ []) = t
join d (t ∷ u ∷ ts) = t ++ (d ∷ join d (u ∷ ts))

abbrev pub IsNonempty : Text → Type 0
IsNonempty t = (c : ℕ) × (r : Text) × (t ≡ c ∷ r)

-- A stream of parts that are not empty is read part by part.
pub getlines-join :
    (d : ℕ) (ts : List Text)
    → All (λ t. Without d t × IsNonempty t) ts
    → getlines d (join d ts) ≡ ts
unfolding join
getlines-join d [] h = unfold getlines in refl
getlines-join d (t ∷ []) ((w, (c, r, e)), _) =
    ap (getlines d) e ∙ getlines_last d c r (subst (Without d) e w) ∙ ap (λ x. x ∷ []) (sym e)
getlines-join d (t ∷ u ∷ ts) ((w, _), h) =
    getlines_more d t (join d (u ∷ ts)) w ∙ ap (λ rest. t ∷ rest) (getlines-join d (u ∷ ts) h)

pub join-All {κ} :
    (P : ℕ → Type κ) (d : ℕ) (ts : List Text) → P d → All (All P) ts → All P (join d ts)
unfolding join
join-All P d [] p h = tt
join-All P d (t ∷ []) p h = h.0
join-All P d (t ∷ u ∷ ts) p (ht, h) =
    All-append P t (d ∷ join d (u ∷ ts)) ht (p, join-All P d (u ∷ ts) p h)

pub skip_spaces-visible : (c : ℕ) (t : Text) → 33 ≤ c → skip_spaces (c ∷ t) ≡ c ∷ t
unfolding skip_spaces is_space
skip_spaces-visible c t h = ground arith
