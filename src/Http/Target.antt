-- ===== src/Http/Target.antt =====
-- The text of a request, and its first line.
use live_trading_engine.Common.{
  ℕ, ◌≤◌, ◌<◌, ◌^◌, ◌≡◌, ◌≢◌, refl, sym, ap, subst, ◌∙◌, false, List, [], ◌∷◌, ◌++◌, All,
  All-append, All-map, arith, Text, codes, length,
}
use mathlib.Core.List.{append-nil}
use live_trading_engine.Common.Streams.{
  split_at, split_at-append, split_at-none, skip_spaces, skip_spaces-visible, is_space, join-All,
  IsNonempty,
}
use live_trading_engine.Http.Message.{HttpRequest}
use live_trading_engine.Http.Encoded.{IsUrl, is_url, url_encode, url_encode-IsUrl}
use live_trading_engine.Http.Parse.{word, first_word, read_word, split_target}
use live_trading_engine.Http.Parameters.{
  Parameter, IsParameter, parameter_text, parameter_texts, query_text, insert_all, parse-query_text,
}
use live_trading_engine.Http.Lines.{IsPrintable, IsLine, crlf_join, blank}
use live_trading_engine.Http.Written.{Request, header_texts, all_headers, IsHeader, IsOther}

-- Neither a blank nor a control character.
abbrev pub IsVisible : ℕ → Type 0
IsVisible c = 33 ≤ c

unfoldable pub query_suffix : List Parameter → Text
query_suffix [] = []
query_suffix (p ∷ ps) = b'?' ∷ query_text (p ∷ ps)

unfoldable pub target : Request → Text
unfolding query_suffix
target r = r.path ++ query_suffix r.parameters

unfoldable pub request_line : Request → Text
unfolding target
request_line r = r.method ++ (b' ' ∷ (target r ++ codes " HTTP/1.1"))

unfoldable pub head_text : Request → Text
unfolding request_line
head_text r = crlf_join (request_line r ∷ header_texts (all_headers r.headers r.body))

unfoldable pub request_text : Request → Text
unfolding head_text
request_text r = head_text r ++ blank r.body

pub record IsWritable (r : Request) : Type 0 where
  pub method_is : All IsVisible r.method × IsNonempty r.method
  pub path_is : All (λ c. IsVisible c × (c ≢ 63)) r.path × IsNonempty r.path
  pub parameters_are : All IsParameter r.parameters
  pub headers_are : All IsHeader r.headers × All IsOther r.headers
  pub body_is : length r.body < 2 ^ 64

-- What the router is to get.
unfoldable pub as_http : Request → HttpRequest
as_http r = record {
  method = r.method;
  path = r.path;
  body = r.body;
  headers = insert_all (all_headers r.headers r.body) [];
  path_params = [];
  query_params = insert_all r.parameters [];
}

visible-ne-space : (c : ℕ) → IsVisible c → is_space c ≡ false
unfolding is_space
visible-ne-space c h = ground arith

word-visible : (w x : Text) → All IsVisible w → word (w ++ (b' ' ∷ x)) ≡ (w, b' ' ∷ x)
unfolding word
word-visible [] x h = unfold is_space in refl
word-visible (c ∷ w) x (h, k) = rw (visible-ne-space c h, word-visible w x k) refl

pub read_word-visible :
    (unchanged w x : Text)
    → All IsVisible w
    → IsNonempty w
    → read_word unchanged (w ++ (b' ' ∷ x)) ≡ (w, b' ' ∷ x)
unfolding read_word
read_word-visible unchanged w x h (c, t, e) =
    ap (λ y. first_word unchanged (skip_spaces (y ++ (b' ' ∷ x)))) e
    ∙ ap (first_word unchanged)
        (skip_spaces-visible c (t ++ (b' ' ∷ x)) (subst (All IsVisible) e h).0)
    ∙ ap (λ y. word (y ++ (b' ' ∷ x))) (sym e)
    ∙ word-visible w x h

pub read_word-space : (unchanged x : Text) → read_word unchanged (b' ' ∷ x) ≡ read_word unchanged x
unfolding read_word skip_spaces is_space
read_word-space unchanged x = refl

url-IsVisible : (c : ℕ) → IsUrl c → IsVisible c
unfolding is_url
url-IsVisible c h = ground arith

parameter-IsVisible : (p : Parameter) → IsParameter p → All IsVisible (parameter_text p)
unfolding parameter_text
parameter-IsVisible (key, v) (h, k) =
    All-append IsVisible (url_encode key) (b'=' ∷ url_encode v)
      (All-map url-IsVisible (url_encode key) (url_encode-IsUrl key h))
      (omega arith, All-map url-IsVisible (url_encode v) (url_encode-IsUrl v k))

parameters-IsVisible :
    (ps : List Parameter) → All IsParameter ps → All (All IsVisible) (parameter_texts ps)
unfolding parameter_texts
parameters-IsVisible [] h = tt
parameters-IsVisible (p ∷ ps) (h, k) = (parameter-IsVisible p h, parameters-IsVisible ps k)

query_suffix-IsVisible :
    (ps : List Parameter) → All IsParameter ps → All IsVisible (query_suffix ps)
unfolding query_suffix query_text
query_suffix-IsVisible [] h = tt
query_suffix-IsVisible (p ∷ ps) h = (
  omega arith,
  join-All IsVisible b'&' (parameter_texts (p ∷ ps)) (omega arith)
      (parameters-IsVisible (p ∷ ps) h),
)

pub target-IsVisible :
    (r : Request) → IsWritable r → All IsVisible (target r) × IsNonempty (target r)
unfolding target
target-IsVisible r w =
    let (p, (c, t, e)) = w.path_is in
    (
      All-append IsVisible r.path (query_suffix r.parameters) (All-map (λ x q. q.0) r.path p)
          (query_suffix-IsVisible r.parameters w.parameters_are),
      (c, t ++ query_suffix r.parameters, ap (λ x. x ++ query_suffix r.parameters) e),
    )

-- The path and the parameters are told apart.
pub split-target :
    (path : Text) (ps : List Parameter)
    → All (λ c. IsVisible c × (c ≢ 63)) path
    → All IsParameter ps
    → split_target (path ++ query_suffix ps) (split_at b'?' (path ++ query_suffix ps))
      ≡ (path, insert_all ps [])
unfolding split_target query_suffix insert_all
split-target path [] h k =
    ap (split_target (path ++ [])) (
      ap (split_at b'?') (append-nil path)
      ∙ split_at-none b'?' path (All-map (λ x q. ground arith) path h))
    ∙ ap (λ x. (x, [])) (append-nil path)
split-target path (p ∷ ps) h k =
    ap (split_target (path ++ (b'?' ∷ query_text (p ∷ ps))))
      (split_at-append b'?' path (query_text (p ∷ ps)) (All-map (λ x q. ground arith) path h))
    ∙ ap (λ x. (path, x)) (parse-query_text (p ∷ ps) k)

pub request_line-IsLine : (r : Request) → IsWritable r → IsLine (request_line r)
unfolding request_line
request_line-IsLine r w =
    let (m, (c, t, e)) = w.method_is in
    let rest : Text = b' ' ∷ (target r ++ codes " HTTP/1.1") in
    (
      All-append IsPrintable r.method rest (All-map (λ x q. omega arith) r.method m) (
        omega arith,
        All-append IsPrintable (target r) (codes " HTTP/1.1")
            (All-map (λ x q. omega arith) (target r) (target-IsVisible r w).0) (omega arith),
      ),
      (c, t ++ rest, ap (λ x. x ++ rest) e),
    )
