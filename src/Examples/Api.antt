-- ===== src/Examples/Api.antt =====
-- The HTTP handlers at concrete inputs.
use live_trading_engine.Common.{
  ℕ, ◌≡◌, refl, Bool, true, false, none, List, [], ◌∷◌, ◌++◌, Text, codes, text_eq,
}
use live_trading_engine.Common.Dict.{lookup}
use live_trading_engine.Common.Int.{ℤ}
use live_trading_engine.Common.Double.{int_double}
use live_trading_engine.Matching.{Engine, get_order_book}
use live_trading_engine.Pipeline.{process_all}
use live_trading_engine.Pipeline.Effects.{IsUntouched}
use live_trading_engine.Api.{HttpRequest, handle_order_request}
use live_trading_engine.Api.Admin.{
  validate_admin_password, provided_password, bearer_token, take, drop, handle_admin_stop_trading,
  handle_admin_resume_trading, flush_books,
}
use live_trading_engine.Api.Password.{IsAuthorized, by_token, by_header, by_query}
use live_trading_engine.Api.Guard.{IsRefused, admin_refuses, stop_suspends}
use live_trading_engine.Api.Flush.{flush_books_lem}
use live_trading_engine.Api.Requests.{handle_order_request_lem}
use live_trading_engine.Examples.Scene.{market_engine, market_book}
use live_trading_engine.Examples.Orders.{system, json}

abbrev anonymous : HttpRequest
anonymous = record {
  method = codes "POST";
  path = codes "/admin/stop_trading";
  body = codes "x";
  headers = [];
  path_params = [];
  query_params = [];
}

abbrev authorized : HttpRequest
authorized = record anonymous { headers = (codes "Authorization", codes "Bearer secret") ∷ [] }

-- What the password check computes with.
checks : ℕ
unfolding validate_admin_password provided_password bearer_token take drop lookup text_eq
checks = 0

-- The request has none of the three.
nobody-unauthorized : ¬ IsAuthorized system anonymous
unfolding lookup
nobody-unauthorized (_, by_token c token h _) = cc
nobody-unauthorized (_, by_header _ h) = cc
nobody-unauthorized (_, by_query _ _ h) = cc

system-IsAuthorized : IsAuthorized system authorized
unfolding lookup text_eq
system-IsAuthorized = (refl, by_token b's' (codes "ecret") refl refl)

admin_refuses_example : IsRefused system (handle_admin_resume_trading json 0 system anonymous)
unfolding checks
admin_refuses_example = (admin_refuses json 0 system anonymous nobody-unauthorized).1

stop_suspends_example : IsUntouched system (
    process_all
      (λ n. n)
      json
      (handle_admin_stop_trading json 0 system authorized).1
      (codes "a" ∷ codes "b" ∷ []))
unfolding checks
stop_suspends_example =
    (stop_suspends json 0 system authorized (λ n. n) (codes "a" ∷ codes "b" ∷ [])
      system-IsAuthorized).1

abbrev stocked : Engine ℤ ℕ
stocked = record market_engine { orderbooks = (codes "AAPL", market_book) ∷ [] }

flush_books_lem_example :
    get_order_book (flush_books stocked (codes "AAPL" ∷ [])).1 (codes "MSFT") ≡ none
unfolding lookup text_eq get_order_book
flush_books_lem_example = (flush_books_lem stocked (codes "AAPL" ∷ [])).2 (codes "MSFT") refl

-- A broker that keeps the keys and takes every message.
abbrev broker : Text → Text → Text → List Text → Bool × List Text
broker topic key value keys = (true, keys ++ (key ∷ []))

handle_order_request_lem_example :
    (handle_order_request json broker (record system { trading_active = false }) [] anonymous).2
    ≡ []
handle_order_request_lem_example =
    ((handle_order_request_lem json broker (record system { trading_active = false }) []
        anonymous).0
      refl).0
