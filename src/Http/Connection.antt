-- ===== src/Http/Connection.antt =====
-- src/network/http_server.cpp: handleClientRequest, over what the calls of recv give.
use live_trading_engine.Common.{
  ℕ, ◌+◌, Bool, true, false, ltb, Option, none, some, List, [], ◌∷◌, ◌++◌, if◌then◌else◌, Text,
  length,
}
use live_trading_engine.Http.Message.{HttpRequest, HttpResponse, with_content_type, response_text}
use live_trading_engine.Http.Parse.{split_blank, content_length, parse_request}

-- What a call of recv gives: bytes, at least one; the end of the stream; a timeout; another error.
pub data Recv : Type 0 where
  received : ℕ → Text → Recv
  ended timed_out failed : Recv

-- The last call of recv.
pub data Last : Type 0 where
  positive zero_bytes timeout other_error : Last

-- What was read, and how often the connection was closed while reading; or the exception of std::stoul.
pub data Reading : Type 0 where
  read : Text → Last → (closes : ℕ) → Reading
  threw : Reading

-- The rest of a body whose length is known, `body_received` bytes of which are there. When nothing more
-- comes, recv times out.
unfoldable pub read_body : List Recv → Text → (content_length body_received : ℕ) → Reading
read_body [] raw content_length body_received =
    if ltb body_received content_length then read raw timeout 1 else read raw positive 0
read_body (received c t ∷ events) raw content_length body_received =
    let more = read_body events (raw ++ (c ∷ t)) content_length (body_received + length (c ∷ t)) in
    if ltb body_received content_length then more else read raw positive 0
read_body (ended ∷ events) raw content_length body_received =
    if ltb body_received content_length then read raw zero_bytes 0 else read raw positive 0
read_body (timed_out ∷ events) raw content_length body_received =
    if ltb body_received content_length then read raw timeout 1 else read raw positive 0
read_body (failed ∷ events) raw content_length body_received =
    if ltb body_received content_length then read raw other_error 0 else read raw positive 0

-- Once the head is there.
unfoldable pub read_behind_head : List Recv → Text → Text → Option (Option ℕ) → Reading
read_behind_head events raw rest none = threw
read_behind_head events raw rest (some none) = read raw positive 0
read_behind_head events raw rest (some (some n)) = read_body events raw n (length rest)

unfoldable pub headers_or : List Recv → Text → Option (Text × Text) → Reading → Reading
headers_or events raw none later = later
headers_or events raw (some (head, rest)) later =
    read_behind_head events raw rest (content_length head)

unfoldable pub read_request : List Recv → Text → Reading
unfolding headers_or read_behind_head
read_request [] raw = read raw timeout 0
read_request (received c t ∷ events) raw =
    let raw' = raw ++ (c ∷ t) in
    headers_or events raw' (split_blank raw') (read_request events raw')
read_request (ended ∷ events) raw = read raw zero_bytes 0
read_request (timed_out ∷ events) raw = read raw timeout 0
read_request (failed ∷ events) raw = read raw other_error 0

-- What the client gets, and how often the connection was closed.
pub record Served : Type 0 where
  pub sent : Option Text
  pub closes : ℕ

abbrev pub is_nil : Text → Bool
is_nil [] = true
is_nil (c ∷ t) = false

module _ {ℓ} {S : Type ℓ} (route_request : HttpRequest → S → HttpResponse × S) where
  unfoldable pub respond : HttpRequest → S → Served × S
  respond req s =
      let (resp, s') = route_request req s in
      (record { sent = some (response_text (with_content_type resp)); closes = 1 }, s')

  -- From the end of the reading on. Of an error the number of bytes tells whether it was the first call.
  unfoldable pub serve : Reading → S → Served × S
  unfolding respond
  serve threw s = (record { sent = none; closes = 0 }, s)
  serve (read raw positive closes) s = respond (parse_request raw) s
  serve (read raw zero_bytes closes) s = (record { sent = none; closes = closes + 1 }, s)
  serve (read raw timeout closes) s = (record { sent = none; closes = closes + 1 }, s)
  serve (read raw other_error closes) s =
      (record { sent = none; closes = if is_nil raw then closes + 1 else closes }, s)

  unfoldable pub handle_client_request : List Recv → S → Served × S
  unfolding serve read_request
  handle_client_request events s = serve (read_request events []) s
