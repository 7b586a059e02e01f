-- ===== src/Http/Delivered.antt =====
-- A request that a client writes reaches the router as it was written.
use live_trading_engine.Common.{
  ◌≡◌, refl, sym, ap, subst, ◌∙◌, some, List, [], ◌∷◌, ◌++◌, All, Text, codes,
}
use live_trading_engine.Common.Streams.{split_at, pop_last-append}
use live_trading_engine.Http.Message.{HttpRequest, HttpResponse}
use live_trading_engine.Http.Parse.{
  split_blank, read_word, split_target, request_of, request_of_lines, request_of_parts,
  parse_request, add_headers,
}
use live_trading_engine.Http.Parameters.{insert_all}
use live_trading_engine.Http.Lines.{IsLine, cr_lines, split_blank-crlf_join, getlines-crlf_join}
use live_trading_engine.Http.Written.{
  Header, Request, header_texts, all_headers, header_texts-IsLine, all_headers-IsHeader,
  content_length_lem, add_headers_lem,
}
use live_trading_engine.Http.Connection.{
  Recv, positive, read, serve, respond, handle_client_request,
}
use live_trading_engine.Http.Received.{Part, whole, receives, IsComplete, read_request-IsComplete}
use live_trading_engine.Http.Target.{
  target, request_line, head_text, request_text, IsWritable, as_http, read_word-visible,
  read_word-space, target-IsVisible, split-target, request_line-IsLine,
}

read_word-method :
    (r : Request)
    → IsWritable r
    → read_word (codes "GET") (request_line r) ≡ (r.method, b' ' ∷ (target r ++ codes " HTTP/1.1"))
unfolding request_line
read_word-method r w =
    read_word-visible (codes "GET") r.method (target r ++ codes " HTTP/1.1") w.method_is.0
      w.method_is.1

split-target_of :
    (r : Request)
    → IsWritable r
    → split_target (target r) (split_at b'?' (target r)) ≡ (r.path, insert_all r.parameters [])
unfolding target
split-target_of r w = split-target r.path r.parameters w.path_is.0 w.parameters_are

request_of_lem :
    (r : Request) (lines : List Text)
    → IsWritable r
    → add_headers [] lines ≡ insert_all (all_headers r.headers r.body) []
    → request_of (request_line r ++ (13 ∷ [])) lines r.body ≡ as_http r
unfolding request_of as_http
request_of_lem r lines w e =
    rw
      (
        pop_last-append 13 (request_line r),
        read_word-method r w,
        read_word-space [] (target r ++ codes " HTTP/1.1"),
        read_word-visible [] (target r) (codes "HTTP/1.1") (target-IsVisible r w).0
            (target-IsVisible r w).1,
        split-target_of r w,
        e,
      )
      refl

cr_lines-all_headers :
    (l : Text) (hs : List Header) (body : Text)
    → cr_lines (l ∷ header_texts (all_headers hs body))
      ≡ (l ++ (13 ∷ [])) ∷ cr_lines (header_texts (all_headers hs body))
unfolding cr_lines header_texts
cr_lines-all_headers l [] body = refl
cr_lines-all_headers l (h ∷ hs) body = refl

head-IsLine :
    (r : Request)
    → IsWritable r
    → All IsLine (request_line r ∷ header_texts (all_headers r.headers r.body))
head-IsLine r w = (
  request_line-IsLine r w,
  header_texts-IsLine (all_headers r.headers r.body)
      (all_headers-IsHeader r.headers r.body w.headers_are.0),
)

split-request_text :
    (r : Request) → IsWritable r → split_blank (request_text r) ≡ some (head_text r, r.body)
unfolding request_text head_text
split-request_text r w =
    split_blank-crlf_join (request_line r) (header_texts (all_headers r.headers r.body)) r.body
      (head-IsLine r w)

parse_request_lem : (r : Request) → IsWritable r → parse_request (request_text r) ≡ as_http r
unfolding parse_request head_text
parse_request_lem r w =
    let hs = all_headers r.headers r.body in
    ap request_of_parts (split-request_text r w)
    ∙ ap (λ x. request_of_lines x r.body)
        (getlines-crlf_join (request_line r) (header_texts hs) (head-IsLine r w)
          ∙ cr_lines-all_headers (request_line r) r.headers r.body)
    ∙ request_of_lem r (cr_lines (header_texts hs)) w
        (add_headers_lem hs [] (all_headers-IsHeader r.headers r.body w.headers_are.0))

request_text-IsComplete :
    (r : Request) → IsWritable r → IsComplete (request_text r) (head_text r) r.body
unfolding head_text
request_text-IsComplete r w = record {
  splits = split-request_text r w;
  length_is =
      content_length_lem (request_line r) r.headers r.body (request_line-IsLine r w) w.headers_are.0
        w.headers_are.1 w.body_is;
}

-- A request that a client writes reaches the router as it was written, with its method, path,
-- parameters, headers and body, and is answered once, and the connection closed once, however the
-- network cuts its bytes into parts, and whatever comes behind them.
pub handle_client_request_lem {ℓ} :
    {S : Type ℓ} (route_request : HttpRequest → S → HttpResponse × S) (r : Request) (ps : List Part)
    (events : List Recv) (s : S)
    → IsWritable r
    → whole ps ≡ request_text r
    → handle_client_request route_request (receives ps events) s
      ≡ respond route_request (as_http r) s
unfolding handle_client_request serve split_blank
handle_client_request_lem route_request r ps events s w e =
    ap (λ x. serve route_request x s)
      (read_request-IsComplete ps events [] (head_text r) r.body
          (subst (λ x. IsComplete x (head_text r) r.body) (sym e) (request_text-IsComplete r w))
          refl
        ∙ ap (λ x. read x positive 0) e)
    ∙ ap (λ q. respond route_request q s) (parse_request_lem r w)
