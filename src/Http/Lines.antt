-- ===== src/Http/Lines.antt =====
-- Lines with CRLF between them: where the empty line is found, and what std::getline reads.
use live_trading_engine.Common.{
  ℕ, ◌≤◌, ◌<◌, ◌≡◌, refl, sym, ap, subst, ◌∙◌, false, ◌==◌, none, some, List, [], ◌∷◌, ◌++◌, All,
  All-append, All-map, arith, Text,
}
use mathlib.Core.List.{append_assoc, append-nil}
use live_trading_engine.Common.Streams.{Without, getlines, getlines_more, getlines_last, IsNonempty}
use live_trading_engine.Http.Parse.{behind_blank, before, split_blank}

-- Not a control character.
abbrev pub IsPrintable : ℕ → Type 0
IsPrintable c = 32 ≤ c

abbrev pub IsLine : Text → Type 0
IsLine l = All IsPrintable l × IsNonempty l

unfoldable pub crlf_join : List Text → Text
crlf_join [] = []
crlf_join (l ∷ []) = l
crlf_join (l ∷ m ∷ ls) = l ++ (13 ∷ 10 ∷ crlf_join (m ∷ ls))

-- The lines as std::getline reads them.
unfoldable pub cr_lines : List Text → List Text
cr_lines [] = []
cr_lines (l ∷ []) = l ∷ []
cr_lines (l ∷ m ∷ ls) = (l ++ (13 ∷ [])) ∷ cr_lines (m ∷ ls)

behind_blank-none : (c : ℕ) (t : Text) → (c == 13) ≡ false → behind_blank (c ∷ t) ≡ none
unfolding behind_blank
behind_blank-none c [] h = refl
behind_blank-none c (d ∷ []) h = refl
behind_blank-none c (d ∷ e ∷ []) h = refl
behind_blank-none c (d ∷ e ∷ f ∷ t) h = rw h refl

behind_blank-line : (c d e : ℕ) (t : Text) → (e == 13) ≡ false → behind_blank (c ∷ d ∷ e ∷ t) ≡ none
unfolding behind_blank
behind_blank-line c d e [] h = refl
behind_blank-line c d e (f ∷ t) h = ground arith

split_blank-pass :
    (c : ℕ) (t : Text)
    → behind_blank (c ∷ t) ≡ none
    → split_blank (c ∷ t) ≡ before c (split_blank t)
unfolding split_blank
split_blank-pass c t h = rw h refl

split_blank-line :
    (l x h body : Text)
    → All IsPrintable l
    → split_blank x ≡ some (h, body)
    → split_blank (l ++ x) ≡ some (l ++ h, body)
split_blank-line [] x h body p e = e
split_blank-line (c ∷ l) x h body p e =
    split_blank-pass c (l ++ x) (behind_blank-none c (l ++ x) (ground arith))
    ∙ ap (before c) (split_blank-line l x h body p.1 e)

split_blank-crlf :
    (c : ℕ) (t h body : Text)
    → IsPrintable c
    → split_blank (c ∷ t) ≡ some (h, body)
    → split_blank (13 ∷ 10 ∷ c ∷ t) ≡ some (13 ∷ 10 ∷ h, body)
split_blank-crlf c t h body p e =
    split_blank-pass 13 (10 ∷ c ∷ t) (behind_blank-line 13 10 c t (ground arith))
    ∙ ap (before 13)
        (split_blank-pass 10 (c ∷ t) (behind_blank-none 10 (c ∷ t) refl) ∙ ap (before 10) e)

abbrev pub blank : Text → Text
blank body = 13 ∷ 10 ∷ 13 ∷ 10 ∷ body

split_blank-blank : (body : Text) → split_blank (blank body) ≡ some ([], body)
unfolding split_blank behind_blank
split_blank-blank body = refl

-- A text that starts with a printable byte.
abbrev pub Starts : Text → Type 0
Starts x = (c : ℕ) × (t : Text) × (x ≡ c ∷ t) × IsPrintable c

IsLine-Starts : (l x : Text) → IsLine l → Starts (l ++ x)
IsLine-Starts l x (p, (c, t, e)) = (c, t ++ x, ap (λ y. y ++ x) e, (subst (All IsPrintable) e p).0)

split_blank-Starts :
    (x h body : Text)
    → Starts x
    → split_blank x ≡ some (h, body)
    → split_blank (13 ∷ 10 ∷ x) ≡ some (13 ∷ 10 ∷ h, body)
split_blank-Starts x h body (c, t, e, p) q =
    ap (λ z. split_blank (13 ∷ 10 ∷ z)) e
    ∙ split_blank-crlf c t h body p (ap split_blank (sym e) ∙ q)

crlf_join-Starts :
    (l : Text) (ls : List Text) (x : Text) → IsLine l → Starts (crlf_join (l ∷ ls) ++ x)
unfolding crlf_join
crlf_join-Starts l [] x h = IsLine-Starts l x h
crlf_join-Starts l (m ∷ ls) x h =
    subst Starts (sym (append_assoc l (13 ∷ 10 ∷ crlf_join (m ∷ ls)) x))
      (IsLine-Starts l (13 ∷ 10 ∷ (crlf_join (m ∷ ls) ++ x)) h)

-- The empty line is found behind the last line.
pub split_blank-crlf_join :
    (l : Text) (ls : List Text) (body : Text)
    → All IsLine (l ∷ ls)
    → split_blank (crlf_join (l ∷ ls) ++ blank body) ≡ some (crlf_join (l ∷ ls), body)
unfolding crlf_join
split_blank-crlf_join l [] body (h, _) =
    split_blank-line l (blank body) [] body h.0 (split_blank-blank body)
    ∙ ap (λ x. some (x, body)) (append-nil l)
split_blank-crlf_join l (m ∷ ls) body (h, k) =
    ap split_blank (append_assoc l (13 ∷ 10 ∷ crlf_join (m ∷ ls)) (blank body))
    ∙ split_blank-line l (13 ∷ 10 ∷ (crlf_join (m ∷ ls) ++ blank body))
        (13 ∷ 10 ∷ crlf_join (m ∷ ls)) body h.0
        (split_blank-Starts (crlf_join (m ∷ ls) ++ blank body) (crlf_join (m ∷ ls)) body
          (crlf_join-Starts m ls (blank body) k.0) (split_blank-crlf_join m ls body k))

pub IsPrintable-Without : (c : ℕ) (t : Text) → c < 32 → All IsPrintable t → Without c t
IsPrintable-Without c t h k = All-map (λ x q. ground arith) t k

-- A line that CRLF ends.
getlines-line :
    (l x : Text) → IsLine l → getlines 10 (l ++ (13 ∷ 10 ∷ x)) ≡ (l ++ (13 ∷ [])) ∷ getlines 10 x
getlines-line l x (p, _) =
    ap (getlines 10) (sym (append_assoc l (13 ∷ []) (10 ∷ x)))
    ∙ getlines_more 10 (l ++ (13 ∷ [])) x (
        All-append (λ y. (y == 10) ≡ false) l (13 ∷ []) (IsPrintable-Without 10 l (omega arith) p)
          (refl, tt))

pub getlines-crlf_join :
    (l : Text) (ls : List Text)
    → All IsLine (l ∷ ls)
    → getlines 10 (crlf_join (l ∷ ls)) ≡ cr_lines (l ∷ ls)
unfolding crlf_join cr_lines
getlines-crlf_join l [] ((p, (c, t, e)), _) =
    ap (getlines 10) e
    ∙ getlines_last 10 c t
        (IsPrintable-Without 10 (c ∷ t) (omega arith) (subst (All IsPrintable) e p))
    ∙ ap (λ x. x ∷ []) (sym e)
getlines-crlf_join l (m ∷ ls) (h, k) =
    getlines-line l (crlf_join (m ∷ ls)) h
    ∙ ap (λ rest. (l ++ (13 ∷ [])) ∷ rest) (getlines-crlf_join m ls k)

-- With the empty line, every line ends in a carriage return.
unfoldable pub ended_lines : List Text → List Text
ended_lines [] = (13 ∷ []) ∷ []
ended_lines (l ∷ ls) = (l ++ (13 ∷ [])) ∷ ended_lines ls

getlines-blank : getlines 10 (13 ∷ 10 ∷ []) ≡ (13 ∷ []) ∷ []
unfolding getlines
getlines-blank = refl

pub getlines-ended :
    (l : Text) (ls : List Text)
    → All IsLine (l ∷ ls)
    → getlines 10 (crlf_join (l ∷ ls) ++ blank []) ≡ ended_lines (l ∷ ls)
unfolding crlf_join ended_lines
getlines-ended l [] (h, _) =
    getlines-line l (13 ∷ 10 ∷ []) h ∙ ap (λ rest. (l ++ (13 ∷ [])) ∷ rest) getlines-blank
getlines-ended l (m ∷ ls) (h, k) =
    ap (getlines 10) (append_assoc l (13 ∷ 10 ∷ crlf_join (m ∷ ls)) (blank []))
    ∙ getlines-line l (crlf_join (m ∷ ls) ++ blank []) h
    ∙ ap (λ rest. (l ++ (13 ∷ [])) ∷ rest) (getlines-ended m ls k)
