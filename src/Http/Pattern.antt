-- ===== src/Http/Pattern.antt =====
-- src/network/http_server.cpp: pathPatternToRegex, and std::regex_match for the expressions that it
-- makes. A special character of a pattern, which the expression would take as such, is not modelled:
-- no pattern of the program has one.
use live_trading_engine.Common.{
  ℕ, Bool, false, not, ◌&&◌, ◌||◌, ◌==◌, Option, none, some, List, [], ◌∷◌, ◌++◌, if◌then◌else◌,
  Text, All, ◌≡◌, refl, sym, ap,
}
use mathlib.Core.List.{append_assoc, append-nil}

-- A character that matches itself, or the group ([^/]+).
pub data Piece : Type 0 where
  lit : ℕ → Piece
  group : Piece

has_char : ℕ → Text → Bool
has_char c [] = false
has_char c (x ∷ t) = x == c || has_char c t

-- Behind an opening brace: a name of at least one character, and a closing brace.
starts_parameter : Text → Bool
unfolding has_char
starts_parameter [] = false
starts_parameter (c ∷ t) = not (c == b'}') && has_char b'}' t

-- Inside of braces, the name read so far; outside, none.
scan_pattern : Option Text → Text → List Piece × List Text
unfolding starts_parameter
scan_pattern inside [] = ([], [])
scan_pattern none (c ∷ t) =
    let outside = scan_pattern none t in
    let name = scan_pattern (some []) t in
    if c == b'{' && starts_parameter t
    then (group ∷ name.0, name.1)
    else (lit c ∷ outside.0, outside.1)
scan_pattern (some name) (c ∷ t) =
    let outside = scan_pattern none t in
    let longer = scan_pattern (some (name ++ (c ∷ []))) t in
    if c == b'}' then (outside.0, name ∷ outside.1) else longer

-- The expression, and the names of the parameters.
unfoldable pub path_pattern_to_regex : Text → List Piece × List Text
unfolding scan_pattern
path_pattern_to_regex pattern = scan_pattern none pattern

abbrev with_match : Text → Option (List Text) → Option (List Text)
with_match found none = none
with_match found (some more) = some (found ∷ more)

-- What a group takes ends here.
abbrev stop_at : (Text → Option (List Text)) → Text → Text → Option (List Text)
stop_at behind [] t = none
stop_at behind (c ∷ taken) t = with_match (c ∷ taken) (behind t)

abbrev first_match : Option (List Text) → Option (List Text) → Option (List Text)
first_match (some found) later = some found
first_match none later = later

-- A group, as long as possible; `taken` is what it took so far, `behind` matches what follows it.
match_group : (Text → Option (List Text)) → Text → Text → Option (List Text)
match_group behind taken [] = stop_at behind taken []
match_group behind taken (c ∷ t) =
    let longer = match_group behind (taken ++ (c ∷ [])) t in
    if c == b'/'
    then stop_at behind taken (c ∷ t)
    else first_match longer (stop_at behind taken (c ∷ t))

-- What the groups take, if the whole text matches.
unfoldable pub regex_match : List Piece → Text → Option (List Text)
unfolding match_group
regex_match [] [] = some []
regex_match [] (c ∷ t) = none
regex_match (lit p ∷ ps) [] = none
regex_match (lit p ∷ ps) (c ∷ t) = let rest = regex_match ps t in if c == p then rest else none
regex_match (group ∷ ps) t = match_group (regex_match ps) [] t

match_group_segment :
    (c : ℕ) (taken t : Text)
    → All (λ x. (x == b'/') ≡ false) t
    → match_group (regex_match []) (c ∷ taken) t ≡ some (((c ∷ taken) ++ t) ∷ [])
unfolding match_group regex_match
match_group_segment c taken [] h = ap (λ l. some ((c ∷ l) ∷ [])) (sym (append-nil taken))
match_group_segment c taken (x ∷ t) h =
    rw (h.0, match_group_segment c (taken ++ (x ∷ [])) t h.1)
      (ap (λ l. some ((c ∷ l) ∷ [])) (append_assoc taken (x ∷ []) t))

-- A group at the end takes a segment whole.
pub regex_match-segment :
    (c : ℕ) (t : Text)
    → All (λ x. (x == b'/') ≡ false) (c ∷ t)
    → regex_match (group ∷ []) (c ∷ t) ≡ some ((c ∷ t) ∷ [])
unfolding match_group regex_match
regex_match-segment c t h = rw (h.0, match_group_segment c [] t h.1) refl
