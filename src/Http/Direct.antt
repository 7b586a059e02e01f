-- ===== src/Http/Direct.antt =====
-- The routes that the router looks up directly, and the plain rule: the first registered route that
-- matches answers.
use live_trading_engine.Common.{
  ◌≡◌, refl, sym, ap, ◌∙◌, inl, inr, Bool-cases, Bool, true, false, ◌||◌, Option, none, some, List,
  [], ◌∷◌, All, arith, if◌then◌else◌, if-split, Text, text_eq, text_eq_iff, text_eq_refl, codes,
}
use live_trading_engine.Http.Message.{HttpRequest, HttpResponse}
use live_trading_engine.Http.Pattern.{Piece, lit, path_pattern_to_regex, regex_match}
use live_trading_engine.Http.Server.{
  RequestHandler, Route, is_direct, is_order, is_health, find_direct, call, call_with, route_match,
  is_skipped, called_or, direct_or, match_routes,
}

-- A pattern without parameters.
unfoldable pub literals : Text → List Piece
literals [] = []
literals (c ∷ t) = lit c ∷ literals t

regex_match-literals :
    (t path : Text) → regex_match (literals t) path ≡ (if text_eq path t then some [] else none)
unfolding literals regex_match text_eq
regex_match-literals [] [] = refl
regex_match-literals [] (c ∷ path) = refl
regex_match-literals (d ∷ t) [] = refl
regex_match-literals (d ∷ t) (c ∷ path) = ground (arith, regex_match-literals t path)

direct_parts :
    (m p method path : Text) → is_direct m p method path ≡ true → (method ≡ m) × (path ≡ p)
direct_parts m p method path e =
    (ground (arith, text_eq_iff method m), ground (arith, text_eq_iff path p))

-- The match of a route with the method `method` and the expression `regex`.
abbrev match_of : Text → List Piece → Text → Text → Option (List Text)
match_of method regex asked path =
    if text_eq method asked || text_eq method (codes "*") then regex_match regex path else none

match_of-here :
    (m p method : Text) (regex : List Piece) (asked path : Text)
    → method ≡ m
    → regex ≡ literals p
    → asked ≡ m
    → path ≡ p
    → match_of method regex asked path ≡ some []
match_of-here m p method regex asked path a b c d =
    rw (a, b, c, d, text_eq_refl m, regex_match-literals p p, text_eq_refl p) refl

match_of-elsewhere :
    (m p method : Text) (regex : List Piece) (asked path : Text)
    → text_eq m (codes "*") ≡ false
    → method ≡ m
    → regex ≡ literals p
    → is_direct m p asked path ≡ false
    → match_of method regex asked path ≡ none
match_of-elsewhere m p method regex asked path any a b n =
    rw (a, b, any, regex_match-literals p path)
      (ground (arith, text_eq_iff m asked, text_eq_iff asked m))

match_of-undisturbed :
    (m p method : Text) (regex : List Piece) (asked path : Text)
    → asked ≡ m
    → path ≡ p
    → ((text_eq method m || text_eq method (codes "*")) ≡ true → regex_match regex p ≡ none)
    → match_of method regex asked path ≡ none
match_of-undisturbed m p method regex asked path a b h =
    rw (a, b)
      (if-split (λ o. o ≡ none) (text_eq method m || text_eq method (codes "*")) _ _ h λ _. refl)

pub order_plain : path_pattern_to_regex (codes "/order") ≡ (literals (codes "/order"), [])
unfolding path_pattern_to_regex literals
order_plain = refl

pub health_plain : path_pattern_to_regex (codes "/health") ≡ (literals (codes "/health"), [])
unfolding path_pattern_to_regex literals
health_plain = refl

pub order-ne-health :
    (method path : Text) → is_order method path ≡ true → is_health method path ≡ false
unfolding text_eq
order-ne-health method path h =
    let (a, b) = direct_parts (codes "POST") (codes "/order") method path h in rw a refl

module _ {ℓ} {S : Type ℓ} where
  -- The plain rule.
  unfoldable pub dispatch : List (Route S) → HttpRequest → S → HttpResponse × S → HttpResponse × S
  dispatch [] request s fallback = fallback
  dispatch (route ∷ routes) request s fallback =
      called_or route request s (route_match route request) (dispatch routes request s fallback)

  -- As registerRoute makes them.
  abbrev pub IsRegistered : Route S → Type 0
  IsRegistered route =
      path_pattern_to_regex route.path_pattern ≡ (route.path_regex, route.param_names)

  -- A route that would be skipped does not match the request.
  abbrev pub Agrees : HttpRequest → Route S → Type 0
  Agrees request route = is_skipped route ≡ true → route_match route request ≡ none

  pub match_routes-dispatch :
      (routes : List (Route S)) (request : HttpRequest) (s : S) (fallback : HttpResponse × S)
      → All (Agrees request) routes
      → match_routes routes request s fallback ≡ dispatch routes request s fallback
  unfolding match_routes dispatch
  match_routes-dispatch [] request s fallback h = refl
  match_routes-dispatch (route ∷ routes) request s fallback (h, r) =
      elim (Bool-cases (is_skipped route)) [
        | inl e ↦ rw (e, h e, match_routes-dispatch routes request s fallback r) refl
        | inr e ↦ rw (e, match_routes-dispatch routes request s fallback r) refl
      ]

  find_direct-here :
      (is_it : Text → Text → Bool) (route : Route S) (routes : List (Route S))
      → is_it route.method route.path_pattern ≡ true
      → find_direct is_it (route ∷ routes) ≡ some route.handler
  unfolding find_direct
  find_direct-here is_it route routes y = rw y refl

  find_direct-next :
      (is_it : Text → Text → Bool) (route : Route S) (routes : List (Route S))
      → is_it route.method route.path_pattern ≡ false
      → find_direct is_it (route ∷ routes) ≡ find_direct is_it routes
  unfolding find_direct
  find_direct-next is_it route routes o = rw o refl

  -- The routes with the method `m` and the pattern `p`.
  module _ (m p : Text) where
    -- No other route takes a request for `p` with the method `m`.
    abbrev pub Undisturbed : Route S → Type 0
    Undisturbed route =
        is_direct m p route.method route.path_pattern ≡ false
        → (text_eq route.method m || text_eq route.method (codes "*")) ≡ true
        → regex_match route.path_regex p ≡ none

    module _ (plain : path_pattern_to_regex p ≡ (literals p, []))
        (not_any : text_eq m (codes "*") ≡ false) where
      -- The expression of a route with this pattern, and its parameters, of which it has none.
      direct_regex :
          (route : Route S)
          → IsRegistered route
          → is_direct m p route.method route.path_pattern ≡ true
          → (route.path_regex ≡ literals p) × (route.param_names ≡ [])
      direct_regex route g e =
          let (a, b) = direct_parts m p route.method route.path_pattern e in
          let q = sym g ∙ ap path_pattern_to_regex b ∙ plain in (ap (λ x. x.0) q, ap (λ x. x.1) q)

      -- Such a route matches no request but that for `p` with the method `m`.
      pub direct-elsewhere :
          (route : Route S) (request : HttpRequest)
          → IsRegistered route
          → is_direct m p route.method route.path_pattern ≡ true
          → is_direct m p request.method request.path ≡ false
          → route_match route request ≡ none
      direct-elsewhere route request g e n =
          let (a, b) = direct_parts m p route.method route.path_pattern e in
          match_of-elsewhere m p route.method route.path_regex request.method request.path not_any a
            (direct_regex route g e).0 n

      direct-here :
          (route : Route S) (request : HttpRequest)
          → IsRegistered route
          → is_direct m p route.method route.path_pattern ≡ true
          → is_direct m p request.method request.path ≡ true
          → route_match route request ≡ some []
      direct-here route request g e n =
          let (a, b) = direct_parts m p route.method route.path_pattern e in
          let (c, d) = direct_parts m p request.method request.path n in
          match_of-here m p route.method route.path_regex request.method request.path a
            (direct_regex route g e).0 c d

      Undisturbed-here :
          (route : Route S) (request : HttpRequest)
          → Undisturbed route
          → is_direct m p route.method route.path_pattern ≡ false
          → is_direct m p request.method request.path ≡ true
          → route_match route request ≡ none
      Undisturbed-here route request u o n =
          let (c, d) = direct_parts m p request.method request.path n in
          match_of-undisturbed m p route.method route.path_regex request.method request.path c d
            (u o)

      call-direct :
          (route : Route S) (request : HttpRequest) (s : S)
          → route.param_names ≡ []
          → call route request [] s ≡ route.handler request s
      unfolding call call_with
      call-direct route request s e = ap (λ ns. call_with route.handler request ns [] s) e

      -- The route that the router looks up is the first that matches.
      pub direct_or-dispatch :
          (routes : List (Route S)) (request : HttpRequest) (s : S) (fallback : HttpResponse × S)
          → All IsRegistered routes
          → All Undisturbed routes
          → is_direct m p request.method request.path ≡ true
          → (h : RequestHandler S) → find_direct (is_direct m p) routes ≡ some h
          → h request s ≡ dispatch routes request s fallback
      unfolding find_direct dispatch
      direct_or-dispatch [] request s fallback g u n h e = cc
      direct_or-dispatch (route ∷ routes) request s fallback (g, gs) (u, us) n h e =
          elim (Bool-cases (is_direct m p route.method route.path_pattern)) [
            | inl y ↦
                ap (λ o. direct_or o request s fallback)
                  (sym e ∙ find_direct-here (is_direct m p) route routes y)
                ∙ sym (
                    ap (λ x. called_or route request s x (dispatch routes request s fallback))
                      (direct-here route request g y n)
                    ∙ call-direct route request s (direct_regex route g y).1)
            | inr o ↦
                direct_or-dispatch routes request s fallback gs us n h
                  (sym (find_direct-next (is_direct m p) route routes o) ∙ e)
                ∙ sym (
                    ap (λ x. called_or route request s x (dispatch routes request s fallback))
                      (Undisturbed-here route request u o n))
          ]

  pub find_direct-none :
      (is_it : Text → Text → Bool) (routes : List (Route S))
      → find_direct is_it routes ≡ none
      → All (λ r. is_it r.method r.path_pattern ≡ false) routes
  unfolding find_direct
  find_direct-none is_it [] e = tt
  find_direct-none is_it (route ∷ routes) e =
      elim (Bool-cases (is_it route.method route.path_pattern)) [
        | inl y ↦ let n = rw y at e in absurd (cc (n))
        | inr o ↦ (o, find_direct-none is_it routes (rw o at e))
      ]
