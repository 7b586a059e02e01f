-- ===== src/Api.antt =====
-- apps/trading_engine/main.cpp: the HTTP handlers of TradingEngine.
pub mod Admin
pub mod Password
pub mod Routes
pub mod Leaderboard
pub mod Shadowed
pub mod Stats
pub mod Guard
pub mod Flush
pub mod Requests
use live_trading_engine.Common.{
  ℕ, Bool, true, false, not, ◌||◌, Option, none, some, List, [], ◌∷◌, ◌++◌, if◌then◌else◌, Text,
  codes,
}
pub use live_trading_engine.Http.Message.{HttpRequest, HttpResponse}
use live_trading_engine.Common.Dict.{Dict, lookup}
use live_trading_engine.Common.Double.{Double}
use live_trading_engine.Common.Json.{Json, JsonLibrary, text, obj, fields, has_key, at_key, as_text}
use live_trading_engine.Common.Result.{Failure, bad_json, invalid_argument, Result, ok, err, ◌>>=◌}
use live_trading_engine.OrderBook.{to_json}
use live_trading_engine.Matching.{get_order_book}
use live_trading_engine.Pipeline.{TradingEngine, error, log}

-- A response whose content type is JSON.
unfoldable pub json_response : ℕ → Text → HttpResponse
json_response status_code body = record {
  status_code = status_code;
  body = body;
  headers = (codes "Content-Type", codes "application/json") ∷ [];
}

module _ {ℓ} {W : Type ℓ} where
  unfoldable pub create_error_response : JsonLibrary W → ℕ → Text → HttpResponse
  create_error_response lib status_code message =
      json_response status_code (lib.dump (obj (fields ((codes "error", text message) ∷ []))))

  -- The light validation of an order request: the value, and the user id.
  unfoldable pub read_user : JsonLibrary W → Text → Result (Json W × Text)
  read_user lib body = do
    json_body ← lib.parse body
    user ←
        (if not (has_key json_body (codes "userId")) || not (has_key json_body (codes "id"))
          then err (invalid_argument (codes "Request must contain 'userId' and 'id'"))
          else at_key lib json_body (codes "userId"))
    user_id ← as_text lib user
    ok (json_body, user_id)

  unfoldable pub read_id : JsonLibrary W → Json W → Result Text
  read_id lib json_body = do order ← at_key lib json_body (codes "id"); as_text lib order

unfoldable pub failure_response : Failure → HttpResponse
failure_response (bad_json what) =
    json_response 400 (codes "{\"error\": \"Invalid JSON format: " ++ (what ++ codes "\"}"))
failure_response (invalid_argument what) =
    json_response 400 (codes "{\"error\": \"" ++ (what ++ codes "\"}"))

module _ {ℓ} {W : Type ℓ} (lib : JsonLibrary W) where
  -- After the message is published.
  unfoldable pub acknowledge : Json W → HttpResponse
  acknowledge json_body = elim (read_id lib json_body) [
    | err f ↦ failure_response f
    | ok id ↦ json_response 202 (
        codes "{\"status\": \"order accepted for processing\", \"order_id\": \""
        ++ (id ++ codes "\"}"))
  ]

-- `publish topic key value` acts on the broker and tells whether it took the message.
module _ {ℓ κ μ} {W : Type ℓ} {S : Type κ} {M : Type μ} (lib : JsonLibrary W)
    (publish : Text → Text → Text → M → Bool × M) where
  unfoldable pub publish_order :
      TradingEngine W S → M → Json W → Text → Text → HttpResponse × TradingEngine W S × M
  publish_order s m json_body user_id body =
      let (published, m') = publish (codes "order-requests") user_id body m in
      if not published
      then (
        json_response 500 (codes "{\"error\": \"Failed to queue order for processing\"}"),
        log error (codes "Failed to publish order to queue") s,
        m',
      )
      else (acknowledge lib json_body, s, m')

  unfoldable pub accept_request :
      TradingEngine W S → M → Text → HttpResponse × TradingEngine W S × M
  accept_request s m body = elim (read_user lib body) [
    | err f ↦ (failure_response f, s, m)
    | ok r ↦ publish_order s m r.0 r.1 body
  ]

  unfoldable pub handle_order_request :
      TradingEngine W S → M → HttpRequest → HttpResponse × TradingEngine W S × M
  handle_order_request s m request =
      if not s.trading_active
      then (json_response 503 (codes "{\"error\": \"Trading is currently suspended\"}"), s, m)
      else accept_request s m request.body

module _ {ℓ κ} {W : Type ℓ} {S : Type κ} where
  unfoldable pub handle_health_request : TradingEngine W S → HttpResponse
  handle_health_request s = json_response 200 (
      codes "{\"status\": \"healthy\", \"running\": "
      ++ ((if s.running then codes "true" else codes "false") ++ codes "}"))

module _ {ℓ κ} {W : Type ℓ} {S : Type κ} ⦃d : Double W⦄ where
  -- No symbol in the path, no book of that symbol, or the book.
  unfoldable pub handle_order_book_request :
      JsonLibrary W → TradingEngine W S → HttpRequest → HttpResponse
  handle_order_book_request lib s request = elim (lookup (codes "symbol") request.path_params) [
    | none ↦ json_response 400 (codes "{\"error\": \"Symbol parameter is required\"}")
    | some symbol ↦ elim (get_order_book s.matching_engine symbol) [
      | none ↦
          json_response 404
            (codes "{\"error\": \"Order book not found for symbol: " ++ (symbol ++ codes "\"}"))
      | some b ↦ json_response 200 (to_json lib.dump s.store b)
    ]
  ]
