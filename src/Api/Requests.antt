-- ===== src/Api/Requests.antt =====
-- What an order request publishes.
use live_trading_engine.Common.{
  ◌≡◌, refl, sym, ap, ◌∙◌, inl, inr, some, Bool, true, false, not, arith, Text, codes, if-split,
}
use live_trading_engine.Common.Json.{
  Json, null, bool, int, num, text, arr, obj, Fields, member, has_key, at_key, as_text, JsonLibrary,
}
use live_trading_engine.Common.Result.{Result-cases, Failure, bad_json, invalid_argument, ok, err}
use live_trading_engine.Pipeline.{TradingEngine, log}
use live_trading_engine.Common.Members.{
  option_cases, has_key-some, has_key-none, at_key-some, as_text_inv,
}
use live_trading_engine.Api.{
  HttpRequest, HttpResponse, json_response, failure_response, read_user, publish_order,
  accept_request, handle_order_request,
}

failure_is_400 : (f : Failure) → (failure_response f).status_code ≡ 400
unfolding failure_response json_response
failure_is_400 (bad_json what) = refl
failure_is_400 (invalid_argument what) = refl

-- A JSON object with an "id" of whatever kind, and the name of the user under "userId".
abbrev pub IsOrderOf {ℓ} : {W : Type ℓ} → Text → Json W → Type ℓ
IsOrderOf {W} user_id j =
    (m : Fields W) × (id : Json W) × (j ≡ obj m)
    × (member m (codes "userId") ≡ some (text user_id))
    × (member m (codes "id") ≡ some id)

module _ {ℓ} {W : Type ℓ} (lib : JsonLibrary W) (body : Text) where
  read_user-IsOrderOf :
      (j : Json W) (user_id : Text)
      → lib.parse body ≡ ok j
      → IsOrderOf user_id j
      → read_user lib body ≡ ok (j, user_id)
  unfolding read_user as_text
  read_user-IsOrderOf j user_id e (m, id, o, u, i) =
      let parsed = e ∙ ap ok o in
      rw
        (
          parsed,
          has_key-some m (codes "userId") (text user_id) u,
          has_key-some m (codes "id") id i,
          at_key-some m (codes "userId") lib (text user_id) u,
          read_user,
        )
        (ap (λ x. ok (x, user_id)) (sym o))

  read_user_inv :
      (j : Json W) (r : Json W × Text)
      → lib.parse body ≡ ok j
      → read_user lib body ≡ ok r
      → IsOrderOf r.1 j
  unfolding read_user has_key at_key as_text
  read_user_inv null r e k = cc (rw (e, read_user) at k)
  read_user_inv (bool b) r e k = cc (rw (e, read_user) at k)
  read_user_inv (int n) r e k = cc (rw (e, read_user) at k)
  read_user_inv (num x) r e k = cc (rw (e, read_user) at k)
  read_user_inv (text t) r e k = cc (rw (e, read_user) at k)
  read_user_inv (arr xs) r e k = cc (rw (e, read_user) at k)
  read_user_inv (obj m) r e k = elim (option_cases (member m (codes "userId"))) [
    | inr a ↦ cc (rw (e, has_key-none m (codes "userId") a, read_user) at k)
    | inl (u, a) ↦ elim (option_cases (member m (codes "id"))) [
      | inr b ↦
          let ka = has_key-some m (codes "userId") u a in
          cc (rw (e, ka, has_key-none m (codes "id") b, read_user) at k)
      | inl (id, b) ↦
          let ka = has_key-some m (codes "userId") u a in
          let kb = has_key-some m (codes "id") id b in
          let kc = at_key-some m (codes "userId") lib u a in
          elim (Result-cases (as_text lib u)) [
            | inr (f, c) ↦ cc (rw (e, ka, kb, kc, c, read_user) at k)
            | inl (t, c) ↦
                let same : ok (obj m, t) ≡ ok r = rw (e, ka, kb, kc, c, read_user) at k in
                let name : t ≡ r.1 = cc same in
                (m, id, refl, a ∙ ap some (as_text_inv lib u t c) ∙ ap (λ x. some (text x)) name, b)
          ]
    ]
  ]

  read_user_none :
      (j : Json W)
      → lib.parse body ≡ ok j
      → ((user_id : Text) → ¬ IsOrderOf user_id j)
      → (f : Failure) × (read_user lib body ≡ err f)
  read_user_none j e n = elim (Result-cases (read_user lib body)) [
    | inr k ↦ k
    | inl (r, k) ↦ absurd (n r.1 (read_user_inv j r e k))
  ]

module _ {ℓ κ μ} {W : Type ℓ} {S : Type κ} {M : Type μ} (lib : JsonLibrary W)
    (publish : Text → Text → Text → M → Bool × M) (s : TradingEngine W S) (m : M)
    (request : HttpRequest) where
  -- What the broker has after the request, and the status of the response.
  abbrev Answer :
      HttpResponse × TradingEngine W S × M → M → (HttpResponse → Type 0) → Type (κ ⊔ μ ⊔ ℓ)
  Answer (response, s', m') expected status =
      (m' ≡ expected)
      × status response
      × (s'.matching_engine ≡ s.matching_engine)
      × (s'.trading_active ≡ s.trading_active)

  suspended_lem :
      s.trading_active ≡ false
      → Answer (handle_order_request lib publish s m request) m (λ r. r.status_code ≡ 503)
  unfolding handle_order_request json_response
  suspended_lem h =
      if-split (λ x. Answer x m (λ r. r.status_code ≡ 503)) (not s.trading_active) _ _
        (λ _. (refl, refl, refl, refl)) λ e. absurd (ground arith)

  read_lem :
      (f : Failure)
      → read_user lib request.body ≡ err f
      → Answer (accept_request lib publish s m request.body) m (λ r. r.status_code ≡ 400)
  unfolding accept_request
  read_lem f e = rw (e, accept_request) (refl, failure_is_400 f, refl, refl)

  -- The message is handed to the broker, and the response tells whether it took it.
  abbrev Published : Bool → HttpResponse → Type 0
  Published taken r = (taken ≡ false → r.status_code ≡ 500) × (r.status_code ≡ 202 → taken ≡ true)

  publish_lem :
      (j : Json W) (user_id : Text)
      → let (taken, m') = publish (codes "order-requests") user_id request.body m in
        Answer (publish_order lib publish s m j user_id request.body) m' (Published taken)
  unfolding publish_order json_response log
  publish_lem j user_id =
      let (taken, m') = publish (codes "order-requests") user_id request.body m in
      if-split (λ x. Answer x m' (Published taken)) (not taken) _ _
        (λ t. (refl, (λ _. refl, λ e. ground arith), refl, refl))
        λ t. (refl, (λ e. absurd (ground arith), λ _. ground arith), refl, refl)

  active_lem :
      (expected : M) (status : HttpResponse → Type 0)
      → s.trading_active ≡ true
      → Answer (accept_request lib publish s m request.body) expected status
      → Answer (handle_order_request lib publish s m request) expected status
  unfolding handle_order_request
  active_lem expected status h a =
      if-split (λ x. Answer x expected status) (not s.trading_active) _ _
        (λ e. absurd (ground arith)) λ _. a

  -- While trading is suspended an order request is answered by 503; a body that is no JSON, or no
  -- order of any user, is answered by 400; and none of these reaches the broker. The body of an order
  -- of a user - a JSON object with a member "id" and that user's name under "userId" - is handed to
  -- the broker as it is, for the topic order-requests and with the user's name as the key; 202 is
  -- answered only if the broker took it, and 500 if it did not. No request touches the matching
  -- engine.
  pub handle_order_request_lem :
      (s.trading_active ≡ false
        → Answer (handle_order_request lib publish s m request) m (λ r. r.status_code ≡ 503))
      × ((f : Failure)
          → s.trading_active ≡ true
          → lib.parse request.body ≡ err f
          → Answer (handle_order_request lib publish s m request) m (λ r. r.status_code ≡ 400))
      × ((j : Json W)
          → s.trading_active ≡ true
          → lib.parse request.body ≡ ok j
          → ((user_id : Text) → ¬ IsOrderOf user_id j)
          → Answer (handle_order_request lib publish s m request) m (λ r. r.status_code ≡ 400))
      × ((j : Json W) (user_id : Text)
          → s.trading_active ≡ true
          → lib.parse request.body ≡ ok j
          → IsOrderOf user_id j
          → let (taken, m') = publish (codes "order-requests") user_id request.body m in
            Answer (handle_order_request lib publish s m request) m' (Published taken))
  unfolding accept_request read_user
  handle_order_request_lem = (
    suspended_lem,
    λ f h e. active_lem m (λ r. r.status_code ≡ 400) h (read_lem f (rw (e, read_user) refl)),
    λ j h e n.
        let (f, k) = read_user_none lib request.body j e n in
        active_lem m (λ r. r.status_code ≡ 400) h (read_lem f k),
    λ j user_id h e o.
        let (taken, m') = publish (codes "order-requests") user_id request.body m in
        let k = read_user-IsOrderOf lib request.body j user_id e o in
        active_lem m' (Published taken) h (rw (k, accept_request) (publish_lem j user_id)),
  )
