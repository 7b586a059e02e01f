-- ===== src/Http/Written.antt =====
-- Requests as a client writes them, and the head of one: its lines, and what is read of them.
use live_trading_engine.Common.{
  ℕ, ◌≤◌, ◌<◌, ◌^◌, ◌≡◌, ◌≢◌, refl, sym, ap, subst, ◌∙◌, true, false, ◌==◌, Option, none, some,
  List, [], ◌∷◌, ◌++◌, All, All-append, All-map, arith, Text, text_eq, codes, decimal, map, length,
}
use mathlib.Core.List.{append_assoc, append-nil}
use live_trading_engine.Common.Dict.{Dict, insert}
use live_trading_engine.Common.Numbers.{stoul-decimal, decimal_cons, decimal-IsDigits}
use live_trading_engine.Common.Streams.{
  Without, split_at, split_at-append, skip, pop_last, pop_last-append, is_digit,
}
use live_trading_engine.Http.Parse.{
  to_lower, length_in, length_lines, rest_lines, content_length, add_header, is_end, add_headers,
}
use live_trading_engine.Http.Parameters.{Parameter, insert_all}
use live_trading_engine.Http.Lines.{
  IsPrintable, IsLine, crlf_join, cr_lines, ended_lines, IsPrintable-Without, getlines-ended,
}

abbrev pub Header : Type 0
Header = Text × Text

-- A client's request; the client adds the Content-Length.
pub record Request : Type 0 where
  pub method : Text
  pub path : Text
  pub parameters : List Parameter
  pub headers : List Header
  pub body : Text

unfoldable pub header_line : Header → Text
header_line (key, v) = key ++ (codes ": " ++ v)

unfoldable pub header_texts : List Header → List Text
unfolding header_line
header_texts [] = []
header_texts (h ∷ hs) = header_line h ∷ header_texts hs

abbrev pub length_header : Text → Header
length_header body = (codes "Content-Length", decimal (length body))

-- No control character, no colon in the key, no space at the front of the value.
abbrev pub IsHeader : Header → Type 0
IsHeader (key, v) =
    All (λ c. (32 ≤ c) × (c ≢ 58)) key × (All IsPrintable v × (skip b' ' (b' ' ∷ v) ≡ v))

-- It is not the length of the body.
abbrev pub IsOther : Header → Type 0
IsOther (key, v) = text_eq (map to_lower key) (codes "content-length") ≡ false

header_line-IsLine : (h : Header) → IsHeader h → IsLine (header_line h)
unfolding header_line
header_line-IsLine ([], v) (k, (p, s)) = ((omega arith, (omega arith, p)), (b':', b' ' ∷ v, refl))
header_line-IsLine (c ∷ key, v) (k, (p, s)) = (
  All-append IsPrintable (c ∷ key) (codes ": " ++ v) (All-map (λ x q. q.0) (c ∷ key) k)
      (omega arith, (omega arith, p)),
  (c, key ++ (codes ": " ++ v), refl),
)

split-header_line :
    (h : Header) (x : Text)
    → IsHeader h
    → split_at b':' (header_line h ++ x) ≡ some (h.0, b' ' ∷ (h.1 ++ x))
unfolding header_line
split-header_line (key, v) x (k, (p, s)) =
    ap (split_at b':') (append_assoc key (b':' ∷ b' ' ∷ v) x)
    ∙ split_at-append b':' key (b' ' ∷ (v ++ x)) (All-map (λ y q. ground arith) key k)

decimal-IsPrintable : (n : ℕ) → All IsPrintable (decimal n)
unfolding is_digit
decimal-IsPrintable n = All-map (λ c h. ground arith) (decimal n) (decimal-IsDigits n)

skip-ne : (c : ℕ) (t : Text) → (c == b' ') ≡ false → skip b' ' (c ∷ t) ≡ c ∷ t
unfolding skip
skip-ne c t h = rw h refl

digit-ne-space : (c : ℕ) → is_digit c ≡ true → (c == b' ') ≡ false
unfolding is_digit
digit-ne-space c h = ground arith

skip-decimal : (n : ℕ) (x : Text) → skip b' ' (decimal n ++ x) ≡ decimal n ++ x
skip-decimal n x =
    let (c, t, e) = decimal_cons n in
    let h = subst (All (λ c. is_digit c ≡ true)) e (decimal-IsDigits n) in
    ap (λ y. skip b' ' (y ++ x)) e
    ∙ skip-ne c (t ++ x) (digit-ne-space c h.0)
    ∙ ap (λ y. y ++ x) (sym e)

skip-space : (t : Text) → skip b' ' (b' ' ∷ t) ≡ skip b' ' t
unfolding skip
skip-space t = refl

length_header-IsHeader : (body : Text) → IsHeader (length_header body)
length_header-IsHeader body = (
  omega arith,
  (
    decimal-IsPrintable (length body),
    skip-space (decimal (length body))
        ∙ ap (skip b' ') (sym (append-nil (decimal (length body))))
        ∙ skip-decimal (length body) []
        ∙ append-nil (decimal (length body)),
  ),
)

-- The headers that are read of the lines.
printable-ne-cr : (c : ℕ) (t : Text) → IsPrintable c → text_eq (c ∷ t) (13 ∷ []) ≡ false
unfolding text_eq
printable-ne-cr c t h = ground arith

line-ne-cr : (l x : Text) → IsLine l → text_eq (l ++ x) (13 ∷ []) ≡ false
line-ne-cr l x (p, (c, t, e)) =
    ap (λ y. text_eq (y ++ x) (13 ∷ [])) e
    ∙ printable-ne-cr c (t ++ x) (subst (All IsPrintable) e p).0

is_end-line : (l x : Text) → IsLine l → is_end (l ++ x) ≡ false
is_end-line l x (p, (c, t, e)) =
    ap (λ y. is_end (y ++ x)) e ∙ printable-ne-cr c (t ++ x) (subst (All IsPrintable) e p).0

pop_last-line : (l : Text) → Without 13 l → pop_last 13 l ≡ l
unfolding pop_last
pop_last-line [] h = refl
pop_last-line (c ∷ []) h = rw (h.0) refl
pop_last-line (c ∷ d ∷ t) h = ap (λ r. c ∷ r) (pop_last-line (d ∷ t) h.1)

add_header-line :
    (h : Header) (m : Dict Text)
    → IsHeader h
    → add_header m (split_at b':' (header_line h)) ≡ insert h.0 h.1 m
unfolding add_header
add_header-line h m w =
    ap (add_header m) (
      ap (split_at b':') (sym (append-nil (header_line h)))
      ∙ split-header_line h [] w
      ∙ ap (λ x. some (h.0, b' ' ∷ x)) (append-nil h.1))
    ∙ ap (λ x. insert h.0 x m) w.1.1

-- All headers are read, the last line without its end.
pub add_headers_lem :
    (hs : List Header) (m : Dict Text)
    → All IsHeader hs
    → add_headers m (cr_lines (header_texts hs)) ≡ insert_all hs m
unfolding add_headers header_texts cr_lines insert_all
add_headers_lem [] m h = refl
add_headers_lem (g ∷ []) m (h, _) =
    rw
      (
        ap is_end (sym (append-nil (header_line g)))
            ∙ is_end-line (header_line g) [] (header_line-IsLine g h),
        pop_last-line (header_line g)
            (IsPrintable-Without 13 (header_line g) (omega arith) (header_line-IsLine g h).0),
      )
      (add_header-line g m h)
add_headers_lem (g ∷ k ∷ hs) m (h, r) =
    rw
      (
        is_end-line (header_line g) (13 ∷ []) (header_line-IsLine g h),
        pop_last-append 13 (header_line g),
      )
      (ap (λ n. add_headers n (cr_lines (header_texts (k ∷ hs)))) (add_header-line g m h)
        ∙ add_headers_lem (k ∷ hs) (insert g.0 g.1 m) r)

length_in-other :
    (h : Header) (found : Option ℕ)
    → IsHeader h
    → IsOther h
    → length_in found (split_at b':' (header_line h ++ (13 ∷ []))) ≡ some found
unfolding length_in
length_in-other h found w o = rw (split-header_line h (13 ∷ []) w, o) refl

length_in-length :
    (body : Text) (found : Option ℕ)
    → length body < 2 ^ 64
    → length_in found (split_at b':' (header_line (length_header body) ++ (13 ∷ [])))
      ≡ some (some (length body))
unfolding length_in text_eq
length_in-length body found small =
    rw
      (
        split-header_line (length_header body) (13 ∷ []) (length_header-IsHeader body),
        skip-space (decimal (length body) ++ (13 ∷ [])),
        skip-decimal (length body) (13 ∷ []),
        pop_last-append 13 (decimal (length body)),
        stoul-decimal (length body) small,
      )
      refl

length_lines-next :
    (l : Text) (rest : List Text) (found found' : Option ℕ)
    → IsLine l
    → length_in found (split_at b':' (l ++ (13 ∷ []))) ≡ some found'
    → length_lines found ((l ++ (13 ∷ [])) ∷ rest) ≡ length_lines found' rest
unfolding length_lines
length_lines-next l rest found found' h e = rw (line-ne-cr l (13 ∷ []) h, e) refl

-- The headers with the length of the body behind them.
abbrev pub all_headers : List Header → Text → List Header
all_headers hs body = hs ++ (length_header body ∷ [])

length_lines_lem :
    (hs : List Header) (body : Text)
    → All IsHeader hs
    → All IsOther hs
    → length body < 2 ^ 64
    → length_lines none (ended_lines (header_texts (all_headers hs body)))
      ≡ some (some (length body))
unfolding header_texts ended_lines
length_lines_lem [] body h o small =
    length_lines-next (header_line (length_header body)) ((13 ∷ []) ∷ []) none (some (length body))
      (header_line-IsLine (length_header body) (length_header-IsHeader body))
      (length_in-length body none small)
    ∙ (unfold length_lines text_eq in refl)
length_lines_lem (g ∷ hs) body (h, hr) (o, orest) small =
    length_lines-next (header_line g) (ended_lines (header_texts (all_headers hs body))) none none
      (header_line-IsLine g h) (length_in-other g none h o)
    ∙ length_lines_lem hs body hr orest small

pub header_texts-IsLine : (hs : List Header) → All IsHeader hs → All IsLine (header_texts hs)
unfolding header_texts
header_texts-IsLine [] h = tt
header_texts-IsLine (g ∷ hs) (h, r) = (header_line-IsLine g h, header_texts-IsLine hs r)

pub all_headers-IsHeader :
    (hs : List Header) (body : Text) → All IsHeader hs → All IsHeader (all_headers hs body)
all_headers-IsHeader hs body h =
    All-append IsHeader hs (length_header body ∷ []) h (length_header-IsHeader body, tt)

-- The length of the body is read of the head.
pub content_length_lem :
    (request_line : Text) (hs : List Header) (body : Text)
    → IsLine request_line
    → All IsHeader hs
    → All IsOther hs
    → length body < 2 ^ 64
    → content_length (crlf_join (request_line ∷ header_texts (all_headers hs body)))
      ≡ some (some (length body))
unfolding content_length
content_length_lem request_line hs body l h o small =
    ap (λ ls. length_lines none (rest_lines ls))
      (getlines-ended request_line (header_texts (all_headers hs body))
        (l, header_texts-IsLine (all_headers hs body) (all_headers-IsHeader hs body h)))
    ∙ (unfold ended_lines in length_lines_lem hs body h o small)
