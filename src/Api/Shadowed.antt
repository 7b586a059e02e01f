-- ===== src/Api/Shadowed.antt =====
-- apps/trading_engine/main.cpp, setupCallbacks: what the route of one symbol takes.
use live_trading_engine.Common.{
  ℕ, ◌==◌, ◌≡◌, refl, Bool, true, false, [], ◌∷◌, ◌++◌, All, Text, codes, text_eq,
}
use live_trading_engine.Common.Dict.{insert}
use live_trading_engine.Http.Message.{HttpRequest, HttpResponse}
use live_trading_engine.Http.Pattern.{
  group, regex_match-segment, regex_match, path_pattern_to_regex,
}
use live_trading_engine.Http.Server.{
  new_server, route_request, new_route, called_or, call, add_path_params, call_with,
}
use live_trading_engine.Api.Routes.{Handlers, setup_callbacks}

abbrev pub IsPlain : ℕ → Type 0
IsPlain c = (c == b'/') ≡ false

-- A request for the statistics under a name without a slash.
abbrev pub stats_request_of : HttpRequest → ℕ → Text → HttpRequest
stats_request_of r c name = record r {
  method = codes "GET";
  path = codes "/api/v1/stats/" ++ (c ∷ name);
}

abbrev symbol_pattern : Text
symbol_pattern = codes "/api/v1/stats/{symbol}"

module _ {ℓ} {S : Type ℓ} (h : Handlers S) (r : HttpRequest) (c : ℕ) (name : Text) (s : S)
    (plain : All IsPlain (c ∷ name)) where
  called :
      (later : HttpResponse × S)
      → called_or
          (new_route (codes "GET") symbol_pattern h.stats_request)
          (stats_request_of r c name)
          s
          (regex_match (group ∷ []) (c ∷ name))
          later
        ≡ h.stats_request
            (record (stats_request_of r c name) {
              path_params = insert (codes "symbol") (c ∷ name) r.path_params;
            })
            s
  unfolding new_route path_pattern_to_regex call call_with add_path_params
  called later = rw (regex_match-segment c name plain) refl

  -- A GET request for /api/v1/stats/ and a name without a slash is answered by the handler of the
  -- statistics of one symbol, with the name as the symbol, whether the admin routes are there or not:
  -- also for the names all and summary, for which other handlers are registered later.
  pub stats_route_lem :
      (admin_enabled : Bool) (host : Text) (port : ℕ)
      → route_request
          (setup_callbacks h admin_enabled (new_server host port))
          (stats_request_of r c name)
          s
        ≡ h.stats_request
            (record (stats_request_of r c name) {
              path_params = insert (codes "symbol") (c ∷ name) r.path_params;
            })
            s
  unfolding setup_callbacks new_server path_pattern_to_regex route_request text_eq regex_match
  stats_route_lem true host port = called _
  stats_route_lem false host port = called _
