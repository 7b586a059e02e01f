-- ===== src/Http/Server.antt =====
-- src/network/http_server.cpp: the routes and the state of an HttpServer. A handler acts on a state S.
use live_trading_engine.Common.{
  ℕ, Bool, true, false, not, ◌&&◌, ◌||◌, Option, none, some, List, [], ◌∷◌, ◌++◌, if◌then◌else◌,
  Text, text_eq, codes,
}
use live_trading_engine.Common.Dict.{Dict, insert}
use live_trading_engine.Http.Message.{HttpRequest, HttpResponse, error_response}
use live_trading_engine.Http.Pattern.{Piece, path_pattern_to_regex, regex_match}

abbrev pub RequestHandler {ℓ} : Type ℓ → Type ℓ
RequestHandler S = HttpRequest → S → HttpResponse × S

pub record Route {ℓ} (S : Type ℓ) : Type ℓ where
  pub method : Text
  pub path_pattern : Text
  pub path_regex : List Piece
  pub param_names : List Text
  pub handler : RequestHandler S

-- The listening socket is there or not.
pub record HttpServer {ℓ} (S : Type ℓ) : Type ℓ where
  pub host : Text
  pub port : ℕ
  pub running : Bool
  pub timeout_seconds : ℕ
  pub max_connections : ℕ
  pub routes : List (Route S)
  pub order_handler : Option (RequestHandler S)
  pub health_handler : Option (RequestHandler S)
  pub is_listening : Bool
  pub stop_flag : Bool

-- The parameters of the path: as many names as there are groups.
unfoldable pub add_path_params : Dict Text → List Text → List Text → Dict Text
add_path_params params [] found = params
add_path_params params (name ∷ names) [] = params
add_path_params params (name ∷ names) (t ∷ found) =
    add_path_params (insert name t params) names found

-- The method and the path, or the pattern, are these.
abbrev pub is_direct : Text → Text → Text → Text → Bool
is_direct m p method path = text_eq method m && text_eq path p

abbrev pub is_order : Text → Text → Bool
is_order = is_direct (codes "POST") (codes "/order")

abbrev pub is_health : Text → Text → Bool
is_health = is_direct (codes "GET") (codes "/health")

module _ {ℓ} {S : Type ℓ} where
  unfoldable pub new_server : Text → ℕ → HttpServer S
  new_server host port = record {
    host = host;
    port = port;
    running = false;
    timeout_seconds = 30;
    max_connections = 100;
    routes = [];
    order_handler = none;
    health_handler = none;
    is_listening = false;
    stop_flag = false;
  }

  unfoldable pub new_route : Text → Text → RequestHandler S → Route S
  new_route method path_pattern handler =
      let (path_regex, param_names) = path_pattern_to_regex path_pattern in
      record {
        method = method;
        path_pattern = path_pattern;
        path_regex = path_regex;
        param_names = param_names;
        handler = handler;
      }

  unfoldable pub register_route : HttpServer S → Text → Text → RequestHandler S → HttpServer S
  unfolding new_route
  register_route server method path_pattern handler = record server {
    routes = server.routes ++ (new_route method path_pattern handler ∷ []);
  }

  unfoldable pub set_order_handler : HttpServer S → RequestHandler S → HttpServer S
  set_order_handler server handler = record server { order_handler = some handler }

  unfoldable pub set_health_handler : HttpServer S → RequestHandler S → HttpServer S
  set_health_handler server handler = record server { health_handler = some handler }

  unfoldable pub set_timeout : HttpServer S → ℕ → HttpServer S
  set_timeout server seconds = record server { timeout_seconds = seconds }

  unfoldable pub set_max_connections : HttpServer S → ℕ → HttpServer S
  set_max_connections server max_connections = record server { max_connections = max_connections }

  unfoldable pub is_running : HttpServer S → Bool
  is_running server = server.running

  -- `socket` tells whether a socket could be opened, bound and listened to.
  unfoldable pub start_server : HttpServer S → (socket : Bool) → Bool × HttpServer S
  start_server server socket =
      if server.running
      then (true, server)
      else if not socket
      then (false, record server { is_listening = false })
      else (true, record server { is_listening = true; stop_flag = false; running = true })

  unfoldable pub stop_server : HttpServer S → HttpServer S
  stop_server server =
      if not server.running
      then server
      else record server { stop_flag = true; is_listening = false; running = false }

  -- The route for orders, or for health, by its method and pattern.
  unfoldable pub find_direct : (Text → Text → Bool) → List (Route S) → Option (RequestHandler S)
  find_direct is_it [] = none
  find_direct is_it (route ∷ routes) =
      let rest = find_direct is_it routes in
      if is_it route.method route.path_pattern then some route.handler else rest

  abbrev pub has_method : Route S → HttpRequest → Bool
  has_method route request = text_eq route.method request.method || text_eq route.method (codes "*")

  -- The call of a handler, with the parameters of the path if there are any.
  unfoldable pub call_with :
      RequestHandler S → HttpRequest → List Text → List Text → S → HttpResponse × S
  call_with handler request [] found s = handler request s
  call_with handler request (n ∷ ns) found s =
      handler (record request { path_params = add_path_params request.path_params (n ∷ ns) found })
        s

  unfoldable pub call : Route S → HttpRequest → List Text → S → HttpResponse × S
  unfolding call_with
  call route request found s = call_with route.handler request route.param_names found s

  -- The match of a route that is looked at.
  abbrev pub route_match : Route S → HttpRequest → Option (List Text)
  route_match route request =
      if has_method route request then regex_match route.path_regex request.path else none

  abbrev pub is_skipped : Route S → Bool
  is_skipped route =
      is_order route.method route.path_pattern || is_health route.method route.path_pattern

  abbrev pub called_or :
      Route S → HttpRequest → S → Option (List Text) → HttpResponse × S → HttpResponse × S
  called_or route request s none later = later
  called_or route request s (some found) later = call route request found s

  abbrev pub direct_or :
      Option (RequestHandler S) → HttpRequest → S → HttpResponse × S → HttpResponse × S
  direct_or none request s later = later
  direct_or (some handler) request s later = handler request s

  -- The handlers that are set without a route.
  unfoldable pub legacy : HttpServer S → HttpRequest → S → HttpResponse × S
  legacy server request s =
      let not_found : HttpResponse × S = (error_response 404 (codes "Not Found"), s) in
      let orders =
        if text_eq request.path (codes "/orders")
        then direct_or server.order_handler request s not_found
        else not_found in
      if text_eq request.path (codes "/health")
      then direct_or server.health_handler request s orders
      else orders

  -- The loop over the routes with regular expressions.
  unfoldable pub match_routes :
      List (Route S) → HttpRequest → S → HttpResponse × S → HttpResponse × S
  unfolding call
  match_routes [] request s fallback = fallback
  match_routes (route ∷ routes) request s fallback =
      let later = match_routes routes request s fallback in
      called_or route request s (if is_skipped route then none else route_match route request) later

  unfoldable pub route_request : HttpServer S → HttpRequest → S → HttpResponse × S
  unfolding find_direct match_routes
  route_request server request s =
      let looked_up = match_routes server.routes request s (legacy server request s) in
      let health =
        if is_health request.method request.path
        then direct_or (find_direct is_health server.routes) request s looked_up
        else looked_up in
      if is_order request.method request.path
      then direct_or (find_direct is_order server.routes) request s health
      else health
