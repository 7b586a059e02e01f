-- ===== src/Http/Parse.antt =====
-- src/network/http_server.cpp: what handleClientRequest reads of the bytes of a request.
use live_trading_engine.Common.{
  ℕ, ◌+◌, Bool, true, ◌&&◌, leb, ◌==◌, Option, none, some, List, [], ◌∷◌, ◌++◌, if◌then◌else◌, Text,
  text_eq, codes, map,
}
use live_trading_engine.Common.Dict.{Dict, insert}
use live_trading_engine.Common.Numbers.{stoul}
use live_trading_engine.Common.Streams.{getlines, split_at, skip, pop_last, is_space, skip_spaces}
use live_trading_engine.Http.Message.{HttpRequest}
use live_trading_engine.Http.Query.{parse_query_parameters}

-- What follows an empty line at the front.
unfoldable pub behind_blank : Text → Option Text
behind_blank (a ∷ b ∷ c ∷ d ∷ t) =
    if a == 13 && (b == 10 && (c == 13 && d == 10)) then some t else none
behind_blank t = none

abbrev pub before : ℕ → Option (Text × Text) → Option (Text × Text)
before c none = none
before c (some (head, rest)) = some (c ∷ head, rest)

abbrev pub found_or : Option Text → Option (Text × Text) → Option (Text × Text)
found_or (some rest) later = some ([], rest)
found_or none later = later

-- What stands before and behind the first empty line.
unfoldable pub split_blank : Text → Option (Text × Text)
split_blank [] = none
split_blank (c ∷ t) = found_or (behind_blank (c ∷ t)) (before c (split_blank t))

-- std::tolower
abbrev pub to_lower : ℕ → ℕ
to_lower c = if leb b'A' c && leb c b'Z' then c + 32 else c

-- One header line while the Content-Length is looked for: the length so far comes in, and `none` is the
-- exception of std::stoul.
unfoldable pub length_in : Option ℕ → Option (Text × Text) → Option (Option ℕ)
length_in found none = some found
length_in found (some (key, v)) =
    if text_eq (map to_lower key) (codes "content-length")
    then (elim (stoul (pop_last 13 (skip b' ' v))) [ none ↦ none | some n ↦ some (some n) ])
    else some found

unfoldable pub length_lines : Option ℕ → List Text → Option (Option ℕ)
length_lines found [] = some found
length_lines found (line ∷ rest) =
    let next = length_in found (split_at b':' line) in
    if text_eq line (13 ∷ [])
    then some found
    else (elim next [ none ↦ none | some found' ↦ length_lines found' rest ])

abbrev pub rest_lines : List Text → List Text
rest_lines [] = []
rest_lines (l ∷ ls) = ls

-- The Content-Length of a head, which ends before the empty line.
unfoldable pub content_length : Text → Option (Option ℕ)
unfolding length_lines length_in
content_length head =
    length_lines none (rest_lines (getlines 10 (head ++ (13 ∷ 10 ∷ 13 ∷ 10 ∷ []))))

-- The bytes up to a space, and those from it on.
unfoldable pub word : Text → Text × Text
word [] = ([], [])
word (c ∷ t) = let (w, rest) = word t in if is_space c then ([], c ∷ t) else (c ∷ w, rest)

-- stream >> text, which stays as it is if there is no more word.
abbrev pub first_word : Text → Text → Text × Text
first_word unchanged [] = (unchanged, [])
first_word unchanged (c ∷ t) = word (c ∷ t)

unfoldable pub read_word : Text → Text → Text × Text
unfolding word
read_word unchanged t = first_word unchanged (skip_spaces t)

-- The path and the parameters.
unfoldable pub split_target : Text → Option (Text × Text) → Text × Dict Text
split_target full_path none = (full_path, [])
split_target full_path (some (path, query_string)) = (path, parse_query_parameters query_string)

unfoldable pub add_header : Dict Text → Option (Text × Text) → Dict Text
add_header headers none = headers
add_header headers (some (key, v)) = insert key (skip b' ' v) headers

abbrev pub is_end : Text → Bool
is_end [] = true
is_end (c ∷ t) = text_eq (c ∷ t) (13 ∷ [])

unfoldable pub add_headers : Dict Text → List Text → Dict Text
unfolding add_header
add_headers headers [] = headers
add_headers headers (line ∷ rest) =
    let more = add_headers (add_header headers (split_at b':' (pop_last 13 line))) rest in
    if is_end line then headers else more

unfoldable pub request_of : Text → List Text → Text → HttpRequest
unfolding read_word split_target add_headers
request_of request_line lines body =
    let (method, rest) = read_word (codes "GET") (pop_last 13 request_line) in
    let (full_path, version) = read_word [] rest in
    let (path, query_params) = split_target full_path (split_at b'?' full_path) in
    record {
      method = method;
      path = path;
      body = body;
      headers = add_headers [] lines;
      path_params = [];
      query_params = query_params;
    }

abbrev pub request_of_lines : List Text → Text → HttpRequest
request_of_lines [] body = request_of [] [] body
request_of_lines (l ∷ ls) body = request_of l ls body

abbrev pub request_of_parts : Option (Text × Text) → HttpRequest
request_of_parts none = record {
  method = codes "GET";
  path = codes "/";
  body = [];
  headers = [];
  path_params = [];
  query_params = [];
}
request_of_parts (some (head, body)) = request_of_lines (getlines 10 head) body

unfoldable pub parse_request : Text → HttpRequest
unfolding split_blank request_of
parse_request request_raw = request_of_parts (split_blank request_raw)
