-- ===== src/Api/Admin.antt =====
-- apps/trading_engine/main.cpp: the password check and the admin handlers. `now` is the time of the
-- response in seconds.
use live_trading_engine.Common.{
  ℕ, zero, suc, ◌+◌, Bool, true, false, not, ◌&&◌, Option, none, some, List, [], ◌∷◌, ◌++◌,
  if◌then◌else◌, ltb, Text, text_eq, codes, decimal, length,
}
use live_trading_engine.Common.Dict.{lookup}
use live_trading_engine.Common.Json.{Json, JsonLibrary, text, bool, int, obj, fields}
use live_trading_engine.OrderBook.{new_book}
use live_trading_engine.Matching.{Engine, get_order_book, add_order_book}
use live_trading_engine.Pipeline.{TradingEngine, info, warning, log}
use live_trading_engine.Api.{HttpRequest, HttpResponse, json_response, create_error_response}

unfoldable pub take : ℕ → Text → Text
take zero t = []
take (suc n) [] = []
take (suc n) (c ∷ cs) = c ∷ take n cs

unfoldable pub drop : ℕ → Text → Text
drop zero t = t
drop (suc n) [] = []
drop (suc n) (c ∷ cs) = drop n cs

-- The token of an Authorization header.
unfoldable pub bearer_token : Option Text → Option Text
bearer_token none = none
bearer_token (some t) =
    if ltb 7 (length t) && text_eq (take 7 t) (codes "Bearer ") then some (drop 7 t) else none

-- The first of the three places that has a password.
unfoldable pub provided_password : HttpRequest → Option Text
provided_password request = elim (bearer_token (lookup (codes "Authorization") request.headers)) [
  | some token ↦ some token
  | none ↦ elim (lookup (codes "X-Admin-Password") request.headers) [
    | some password ↦ some password
    | none ↦ lookup (codes "password") request.query_params
  ]
]

-- The symbols whose books are flushed and counted.
abbrev pub known_symbols : List Text
known_symbols = codes "AAPL" ∷ codes "MSFT" ∷ codes "GOOGL" ∷ codes "AMZN" ∷ codes "TSLA" ∷ []

module _ {ℓ} {W : Type ℓ} where
  unfoldable pub unauthorized : JsonLibrary W → HttpResponse
  unauthorized lib = create_error_response lib 401 (codes "Unauthorized: Invalid admin credentials")

module _ {ℓ κ} {W : Type ℓ} {S : Type κ} where
  unfoldable pub validate_admin_password : TradingEngine W S → HttpRequest → Bool
  validate_admin_password s request =
      if not s.admin_enabled then false else (elim (provided_password request) [
        | none ↦ false
        | some password ↦ text_eq password s.admin_password
      ])

  -- Each book of a known symbol is replaced by an empty one; the count is that of the books replaced.
  unfoldable pub flush_books : Engine W S → List Text → ℕ × Engine W S
  flush_books e [] = (0, e)
  flush_books e (symbol ∷ symbols) =
      let (cleared, rest) = flush_books (add_order_book e symbol (new_book symbol)) symbols in
      let untouched = flush_books e symbols in
      elim (get_order_book e symbol) [ none ↦ untouched | some b ↦ (cleared + 1, rest) ]

  -- The known symbols that have a book.
  unfoldable pub count_books : Engine W S → List Text → ℕ
  count_books e [] = 0
  count_books e (symbol ∷ symbols) =
      let rest = count_books e symbols in
      elim (get_order_book e symbol) [ none ↦ rest | some b ↦ rest + 1 ]

  module _ (lib : JsonLibrary W) (now : ℕ) where
    -- A handler that has to be authorised, the state at hand being that which it leaves behind if not.
    unfoldable pub guarded :
        TradingEngine W S
        → HttpRequest
        → HttpResponse × TradingEngine W S
        → HttpResponse × TradingEngine W S
    guarded s request allowed =
        if not (validate_admin_password s request) then (unauthorized lib, s) else allowed

    unfoldable pub stop_trading : TradingEngine W S → HttpResponse × TradingEngine W S
    stop_trading s =
        if not s.trading_active
        then (create_error_response lib 400 (codes "Trading is already suspended"), s)
        else (
          json_response 200 (
              lib.dump (
                obj (
                  fields (
                    (codes "status", text (codes "success"))
                    ∷ (
                      codes "message",
                      text (codes "Trading suspended - existing orders will be processed"),
                    )
                    ∷ (codes "trading_active", bool false)
                    ∷ (codes "timestamp", int now)
                    ∷ [])))),
          log warning (codes "Admin stopped trading - processing remaining orders")
              (record s { trading_active = false }),
        )

    unfoldable pub handle_admin_stop_trading :
        TradingEngine W S → HttpRequest → HttpResponse × TradingEngine W S
    handle_admin_stop_trading s request =
        let called = log info (codes "handleAdminStopTrading called") s in
        guarded called request (stop_trading called)

    unfoldable pub resume_trading : TradingEngine W S → HttpResponse × TradingEngine W S
    resume_trading s =
        if s.trading_active
        then (create_error_response lib 400 (codes "Trading is already active"), s)
        else (
          json_response 200 (
              lib.dump (
                obj (
                  fields (
                    (codes "status", text (codes "success"))
                    ∷ (codes "message", text (codes "Trading resumed"))
                    ∷ (codes "trading_active", bool true)
                    ∷ (codes "timestamp", int now)
                    ∷ [])))),
          log info (codes "Admin resumed trading") (record s { trading_active = true }),
        )

    unfoldable pub handle_admin_resume_trading :
        TradingEngine W S → HttpRequest → HttpResponse × TradingEngine W S
    handle_admin_resume_trading s request = guarded s request (resume_trading s)

    -- The books of the known symbols are replaced; the users and the statistics stay.
    unfoldable pub flush_system : TradingEngine W S → HttpResponse × TradingEngine W S
    flush_system s =
        let begun = log warning (codes "Admin initiated system flush") s in
        let (cleared, e) = flush_books s.matching_engine known_symbols in
        let noted = length e.users in
        if s.trading_active
        then (create_error_response lib 400 (codes "Must stop trading before flushing system"), s)
        else (
          json_response 200 (
              lib.dump (
                obj (
                  fields (
                    (codes "status", text (codes "success"))
                    ∷ (
                      codes "message",
                      text (
                          codes
                            "System flushed - order books cleared, user portfolio reset limited by API"),
                    )
                    ∷ (codes "cleared_orderbooks", int cleared)
                    ∷ (codes "noted_users", int noted)
                    ∷ (codes "starting_cash", int 100_000)
                    ∷ (codes "trading_active", bool s.trading_active)
                    ∷ (
                      codes "note",
                      text (codes "Complete user portfolio reset requires User class API updates"),
                    )
                    ∷ (codes "timestamp", int now)
                    ∷ [])))),
          log info
              (codes "System flushed - cleared "
                ++ (decimal cleared
                    ++ (codes " orderbooks. User portfolios noted: " ++ decimal noted)))
              (record begun { matching_engine = e }),
        )

    unfoldable pub handle_admin_flush_system :
        TradingEngine W S → HttpRequest → HttpResponse × TradingEngine W S
    handle_admin_flush_system s request = guarded s request (flush_system s)

    -- `statistics` is what the collector contributes while it is running.
    unfoldable pub handle_admin_status :
        List (Text × Json W) → TradingEngine W S → HttpRequest → HttpResponse × TradingEngine W S
    handle_admin_status statistics s request = guarded s request (
      json_response 200 (
          lib.dump (
            obj (
              fields (
                (codes "trading_active", bool s.trading_active)
                ∷ (codes "engine_running", bool s.running)
                ∷ (codes "admin_enabled", bool s.admin_enabled)
                ∷ (codes "total_orderbooks", int (count_books s.matching_engine known_symbols))
                ∷ (codes "total_users", int (length s.matching_engine.users))
                ∷ (statistics ++ ((codes "timestamp", int now) ∷ [])))))),
      s,
    )
