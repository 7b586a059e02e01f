-- ===== src/Http/Parameters.antt =====
-- What the parser of a query makes of encoded parameters.
use live_trading_engine.Common.{
  ◌≡◌, refl, ap, ◌∙◌, false, ◌==◌, inl, inr, some, List, [], ◌∷◌, ◌++◌, All, All-append, List-cases,
  Text,
}
use live_trading_engine.Common.Dict.{Dict, insert}
use live_trading_engine.Common.Streams.{
  Without, getlines-join, split_at, split_at-append, join, IsNonempty,
}
use live_trading_engine.Http.Query.{add_parameter, add_parameters, parse_query_parameters}
use live_trading_engine.Http.Encoded.{
  url_encode, is_url, IsByte, url_decode-url_encode, url_encode-IsUrl, IsUrl-Without,
}

-- A query as it is written.
abbrev pub Parameter : Type 0
Parameter = Text × Text

unfoldable pub parameter_text : Parameter → Text
parameter_text (key, v) = url_encode key ++ (b'=' ∷ url_encode v)

unfoldable pub parameter_texts : List Parameter → List Text
unfolding parameter_text
parameter_texts [] = []
parameter_texts (p ∷ ps) = parameter_text p ∷ parameter_texts ps

unfoldable pub query_text : List Parameter → Text
unfolding parameter_texts
query_text ps = join b'&' (parameter_texts ps)

abbrev pub IsParameter : Parameter → Type 0
IsParameter p = All IsByte p.0 × All IsByte p.1

-- The dictionary of the parameters: a later one with the same key wins.
unfoldable pub insert_all : List Parameter → Dict Text → Dict Text
insert_all [] m = m
insert_all ((key, v) ∷ ps) m = insert_all ps (insert key v m)

parameter-Without :
    (p : Parameter)
    → IsParameter p
    → Without b'&' (parameter_text p) × IsNonempty (parameter_text p)
unfolding parameter_text is_url
parameter-Without (key, v) (h, k) = (
  All-append (λ x. (x == b'&') ≡ false) (url_encode key) (b'=' ∷ url_encode v)
      (IsUrl-Without b'&' (url_encode key) refl (url_encode-IsUrl key h))
      (refl, IsUrl-Without b'&' (url_encode v) refl (url_encode-IsUrl v k)),
  elim (List-cases (url_encode key)) [
    | inl e ↦ (b'=', url_encode v, rw e refl)
    | inr (c, t, e) ↦ (c, t ++ (b'=' ∷ url_encode v), rw e refl)
  ],
)

parameter_texts-Parts :
    (ps : List Parameter)
    → All IsParameter ps
    → All (λ t. Without b'&' t × IsNonempty t) (parameter_texts ps)
unfolding parameter_texts
parameter_texts-Parts [] h = tt
parameter_texts-Parts (p ∷ ps) (q, h) = (parameter-Without p q, parameter_texts-Parts ps h)

split-parameter_text :
    (p : Parameter)
    → IsParameter p
    → split_at b'=' (parameter_text p) ≡ some (url_encode p.0, url_encode p.1)
unfolding parameter_text is_url
split-parameter_text (key, v) (h, k) =
    split_at-append b'=' (url_encode key) (url_encode v)
      (IsUrl-Without b'=' (url_encode key) refl (url_encode-IsUrl key h))

decoded :
    (key v : Text) (m : Dict Text) (pair : Text)
    → IsParameter (key, v)
    → add_parameter m pair (some (url_encode key, url_encode v)) ≡ insert key v m
unfolding add_parameter
decoded key v m pair (h, k) = rw (url_decode-url_encode key h, url_decode-url_encode v k) refl

add_parameters_lem :
    (ps : List Parameter) (m : Dict Text)
    → All IsParameter ps
    → add_parameters m (parameter_texts ps) ≡ insert_all ps m
unfolding add_parameters parameter_texts insert_all
add_parameters_lem [] m h = refl
add_parameters_lem ((key, v) ∷ ps) m (q, h) =
    ap (λ n. add_parameters n (parameter_texts ps))
      (ap (add_parameter m (parameter_text (key, v))) (split-parameter_text (key, v) q)
        ∙ decoded key v m (parameter_text (key, v)) q)
    ∙ add_parameters_lem ps (insert key v m) h

-- A query whose keys and values are encoded byte by byte is read as the dictionary of what they were
-- before, whatever bytes these hold.
pub parse-query_text :
    (ps : List Parameter)
    → All IsParameter ps
    → parse_query_parameters (query_text ps) ≡ insert_all ps []
unfolding parse_query_parameters query_text
parse-query_text ps h =
    ap (add_parameters []) (getlines-join b'&' (parameter_texts ps) (parameter_texts-Parts ps h))
    ∙ add_parameters_lem ps [] h
