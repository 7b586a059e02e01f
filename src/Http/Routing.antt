-- ===== src/Http/Routing.antt =====
-- The router against the plain rule.
use live_trading_engine.Common.{
  ◌≡◌, refl, ◌⊎◌, inl, inr, Bool-cases, Option-cases, Bool, true, false, none, List, [], ◌∷◌, All,
  All-map, everywhere, Text, text_eq, codes,
}
use live_trading_engine.Http.Message.{HttpRequest, HttpResponse}
use live_trading_engine.Http.Pattern.{path_pattern_to_regex}
use live_trading_engine.Http.Server.{
  Route, HttpServer, is_direct, is_order, is_health, find_direct, route_match, direct_or, legacy,
  match_routes, route_request,
}
use live_trading_engine.Http.Direct.{
  literals, order_plain, health_plain, order-ne-health, dispatch, IsRegistered, Agrees,
  match_routes-dispatch, find_direct-none, Undisturbed, direct-elsewhere, direct_or-dispatch,
}

module _ {ℓ} {S : Type ℓ} where
  -- A kind of direct route that neither the request nor a route is of.
  abbrev Absent : (Text → Text → Bool) → HttpRequest → Route S → Type 0
  Absent is_it request route =
      (is_it request.method request.path ≡ false) ⊎ (is_it route.method route.path_pattern ≡ false)

  Absent-elsewhere :
      (m p : Text) (request : HttpRequest) (route : Route S)
      → path_pattern_to_regex p ≡ (literals p, [])
      → text_eq m (codes "*") ≡ false
      → IsRegistered route
      → Absent (is_direct m p) request route
      → is_direct m p route.method route.path_pattern ≡ true
      → route_match route request ≡ none
  Absent-elsewhere m p request route plain any g (inl n) y =
      direct-elsewhere m p plain any route request g y n
  Absent-elsewhere m p request route plain any g (inr n) y = absurd (cc (y, n))

  Absent-Agrees :
      (request : HttpRequest) (route : Route S)
      → IsRegistered route
      → Absent is_order request route
      → Absent is_health request route
      → Agrees request route
  Absent-Agrees request route g a b skipped =
      elim (Bool-cases (is_order route.method route.path_pattern)) [
        | inl y ↦
            Absent-elsewhere (codes "POST") (codes "/order") request route order_plain
              (unfold text_eq in refl) g a y
        | inr n ↦
            Absent-elsewhere (codes "GET") (codes "/health") request route health_plain
              (unfold text_eq in refl) g b (rw n at skipped)
      ]

  routes-Agree :
      (routes : List (Route S)) (request : HttpRequest)
      → All IsRegistered routes
      → All (Absent is_order request) routes
      → All (Absent is_health request) routes
      → All (Agrees request) routes
  routes-Agree [] request g a b = tt
  routes-Agree (route ∷ routes) request (g, gs) (a, as') (b, bs) =
      (Absent-Agrees request route g a b, routes-Agree routes request gs as' bs)

  looked_up :
      (routes : List (Route S)) (request : HttpRequest) (s : S) (fallback : HttpResponse × S)
      → All IsRegistered routes
      → All (Absent is_order request) routes
      → All (Absent is_health request) routes
      → match_routes routes request s fallback ≡ dispatch routes request s fallback
  looked_up routes request s fallback g a b =
      match_routes-dispatch routes request s fallback (routes-Agree routes request g a b)

  direct-lem :
      (m p : Text)
      → path_pattern_to_regex p ≡ (literals p, [])
      → text_eq m (codes "*") ≡ false
      → (routes : List (Route S)) (request : HttpRequest) (s : S)
        (fallback later : HttpResponse × S)
      → All IsRegistered routes
      → All (Undisturbed m p) routes
      → is_direct m p request.method request.path ≡ true
      → (find_direct (is_direct m p) routes ≡ none → later ≡ dispatch routes request s fallback)
      → direct_or (find_direct (is_direct m p) routes) request s later
        ≡ dispatch routes request s fallback
  direct-lem m p plain any routes request s fallback later g u n k =
      elim (Option-cases (find_direct (is_direct m p) routes)) [
        | inl e ↦ rw e (k e)
        | inr (h, e) ↦ rw e (direct_or-dispatch m p plain any routes request s fallback g u n h e)
      ]

  -- If every route was registered, and no route but that for POST /order, or GET /health, takes such a
  -- request, then the router answers by the plain rule: the first registered route that matches
  -- handles the request, and without one the legacy handlers do.
  pub route_request_lem :
      (server : HttpServer S) (request : HttpRequest) (s : S)
      → All IsRegistered server.routes
      → All (Undisturbed (codes "POST") (codes "/order")) server.routes
      → All (Undisturbed (codes "GET") (codes "/health")) server.routes
      → route_request server request s ≡ dispatch server.routes request s (legacy server request s)
  unfolding route_request
  route_request_lem server request s g u v =
      elim (Bool-cases (is_order request.method request.path)) [
        | inl y ↦ rw y (
            direct-lem (codes "POST") (codes "/order") order_plain (unfold text_eq in refl)
              server.routes request s (legacy server request s) _ g u y
              λ e. rw (order-ne-health request.method request.path y) (
                looked_up server.routes request s (legacy server request s) g
                  (All-map (λ r o. inr o) server.routes (find_direct-none is_order server.routes e))
                  (everywhere server.routes
                    (λ r. inl (order-ne-health request.method request.path y)))))
        | inr n ↦ rw n (elim (Bool-cases (is_health request.method request.path)) [
          | inl z ↦ rw z (
              direct-lem (codes "GET") (codes "/health") health_plain (unfold text_eq in refl)
                server.routes request s (legacy server request s) _ g v z
                λ e.
                  looked_up server.routes request s (legacy server request s) g
                    (everywhere server.routes (λ r. inl n))
                    (All-map (λ r o. inr o) server.routes
                      (find_direct-none is_health server.routes e)))
          | inr k ↦ rw k (
              looked_up server.routes request s (legacy server request s) g
                (everywhere server.routes (λ r. inl n)) (everywhere server.routes (λ r. inl k)))
        ])
      ]
