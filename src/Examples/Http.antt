-- ===== src/Examples/Http.antt =====
-- Requests to the HTTP server.
use live_trading_engine.Common.{
  ℕ, ◌+◌, ◌≡◌, refl, true, List, [], ◌∷◌, ◌++◌, All, arith, codes, text_eq, text_lt, decimal,
}
use live_trading_engine.Common.Streams.{skip, join}
use live_trading_engine.Http.Message.{HttpRequest, HttpResponse}
use live_trading_engine.Http.Query.{parse_query_parameters}
use live_trading_engine.Http.Parameters.{Parameter, query_text, insert_all, parse-query_text}
use live_trading_engine.Http.Connection.{timed_out, handle_client_request, respond}
use live_trading_engine.Http.Lines.{crlf_join}
use live_trading_engine.Http.Encoded.{url_encode}
use live_trading_engine.Http.Received.{Part, whole, receives}
use live_trading_engine.Http.Written.{Request, header_texts}
use live_trading_engine.Http.Target.{IsWritable, request_text, as_http}
use live_trading_engine.Http.Delivered.{handle_client_request_lem}
use live_trading_engine.Http.Pattern.{path_pattern_to_regex, regex_match}
use live_trading_engine.Http.Server.{HttpServer, new_server, route_request, legacy}
use live_trading_engine.Http.Direct.{dispatch, IsRegistered, Undisturbed}
use live_trading_engine.Http.Routing.{route_request_lem}
use live_trading_engine.Api.Routes.{Handlers, setup_callbacks}

abbrev parameters : List Parameter
parameters = (codes "user", codes "a&b = c") ∷ (codes "50%", []) ∷ []

parse-query_text_example : parse_query_parameters (query_text parameters) ≡ insert_all parameters []
parse-query_text_example = parse-query_text parameters (omega arith)

-- A handler that answers with its number, and counts the calls.
abbrev pub answers : ℕ → HttpRequest → ℕ → HttpResponse × ℕ
answers n request s = (record { status_code = n; body = request.body; headers = [] }, s + 1)

abbrev posted : Request
posted = record {
  method = codes "POST";
  path = codes "/order";
  parameters = parameters;
  headers = (codes "Host", codes "exchange") ∷ [];
  body = codes "{\"id\": 7}";
}

posted-IsWritable : IsWritable posted
unfolding skip text_eq
posted-IsWritable = record {
  method_is = (omega arith, (b'P', codes "OST", refl));
  path_is = (omega arith, (b'/', codes "order", refl));
  parameters_are = omega arith;
  headers_are = (((omega arith, (omega arith, refl)), tt), (refl, tt));
  body_is = omega arith;
}

-- The head comes in two parts, and the body in a third.
abbrev parts : List Part
parts =
    (b'P', codes "OST /ord")
    ∷ (
      b'e',
      codes "r?user=a%26b%20%3D%20c&50%25= HTTP/1.1"
          ++ (13
              ∷ 10
              ∷ (codes "Host: exchange"
                  ++ (13
                      ∷ 10
                      ∷ (codes "Content-Length: 9" ++ (13 ∷ 10 ∷ 13 ∷ 10 ∷ codes "{\"i"))))),
    )
    ∷ (b'd', codes "\": 7}")
    ∷ []

parts-request_text : whole parts ≡ request_text posted
unfolding whole request_text crlf_join header_texts decimal query_text url_encode join
parts-request_text = refl

handle_client_request_lem_example :
    handle_client_request (answers 202) (receives parts (timed_out ∷ [])) 4
    ≡ respond (answers 202) (as_http posted) 4
handle_client_request_lem_example =
    handle_client_request_lem (answers 202) posted parts (timed_out ∷ []) 4 posted-IsWritable
      parts-request_text

abbrev pub handlers : Handlers ℕ
handlers = record {
  order_request = answers 1;
  health_request = answers 2;
  order_book_request = answers 3;
  stats_request = answers 4;
  all_stats_request = answers 5;
  stats_summary_request = answers 6;
  leaderboard_request = answers 7;
  admin_stop_trading = answers 8;
  admin_flush_system = answers 9;
  admin_resume_trading = answers 10;
  admin_status = answers 11;
}

abbrev server : HttpServer ℕ
server = setup_callbacks handlers true (new_server (codes "0.0.0.0") 8080)

abbrev pub asked : HttpRequest
asked = record {
  method = codes "GET";
  path = codes "/api/v1/stats/all";
  body = [];
  headers = [];
  path_params = [];
  query_params = [];
}

server-IsRegistered : All IsRegistered server.routes
unfolding setup_callbacks new_server path_pattern_to_regex
server-IsRegistered = (
  refl,
  (refl, (refl, (refl, (refl, (refl, (refl, (refl, (refl, (refl, (refl, (refl, tt))))))))))),
)

-- Only the route for orders takes POST /order, whatever its handler does.
order-Undisturbed : All (Undisturbed (codes "POST") (codes "/order")) server.routes
unfolding setup_callbacks new_server path_pattern_to_regex regex_match text_eq
order-Undisturbed = (
  λ e _. cc,
  (
    λ _ _. refl,
    (
      λ _ _. refl,
      (
        λ _ _. refl,
        (
          λ _ _. refl,
          (
            λ _ _. refl,
            (
              λ _ _. refl,
              (λ _ _. refl, (λ _ _. refl, (λ _ _. refl, (λ _ _. refl, (λ _ _. refl, tt))))),
            ),
          ),
        ),
      ),
    ),
  ),
)

health-Undisturbed : All (Undisturbed (codes "GET") (codes "/health")) server.routes
unfolding setup_callbacks new_server path_pattern_to_regex regex_match text_eq
health-Undisturbed = (
  λ _ _. refl,
  (
    λ e _. cc,
    (
      λ _ _. refl,
      (
        λ _ _. refl,
        (
          λ _ _. refl,
          (
            λ _ _. refl,
            (
              λ _ _. refl,
              (λ _ _. refl, (λ _ _. refl, (λ _ _. refl, (λ _ _. refl, (λ _ _. refl, tt))))),
            ),
          ),
        ),
      ),
    ),
  ),
)

route_request_lem_example :
    route_request server asked 0 ≡ dispatch server.routes asked 0 (legacy server asked 0)
route_request_lem_example =
    route_request_lem server asked 0 server-IsRegistered order-Undisturbed health-Undisturbed

-- The route with the parameter takes what is meant for the route of all symbols.
all_is_a_symbol : (route_request server asked 0).0.status_code ≡ 4
unfolding route_request setup_callbacks new_server path_pattern_to_regex regex_match text_eq text_lt
all_is_a_symbol = refl
