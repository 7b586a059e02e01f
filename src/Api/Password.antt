-- ===== src/Api/Password.antt =====
-- The password check of the admin handlers against a plain rule.
use live_trading_engine.Common.{
  ℕ, zero, suc, ◌<◌, ◌≡◌, ◌≢◌, refl, sym, ap, ◌∙◌, ◌⊎◌, inl, inr, Bool-cases, true, false, ◌&&◌,
  Option, none, some, [], ◌∷◌, ◌++◌, ltb, arith, length, Text, text_eq, text_eq_iff, codes,
}
use live_trading_engine.Common.Members.{option_cases}
use live_trading_engine.Common.Dict.{lookup}
use live_trading_engine.Pipeline.{TradingEngine}
use live_trading_engine.Api.{HttpRequest}
use live_trading_engine.Api.Admin.{
  take, drop, bearer_token, provided_password, validate_admin_password,
}

abbrev authorization : HttpRequest → Option Text
authorization request = lookup (codes "Authorization") request.headers

-- There is no bearer token in the Authorization header.
abbrev NoToken : Option Text → Type 0
NoToken header = (c : ℕ) (token : Text) → header ≢ some (codes "Bearer " ++ (c ∷ token))

-- The password that a request presents: its bearer token, which is not empty; else its
-- X-Admin-Password header; else its query parameter.
pub data Presents (request : HttpRequest) (password : Text) : Type 0 where
  by_token :
      (c : ℕ) (token : Text)
      → authorization request ≡ some (codes "Bearer " ++ (c ∷ token))
      → password ≡ c ∷ token
      → Presents request password
  by_header :
      NoToken (authorization request)
      → lookup (codes "X-Admin-Password") request.headers ≡ some password
      → Presents request password
  by_query :
      NoToken (authorization request)
      → lookup (codes "X-Admin-Password") request.headers ≡ none
      → lookup (codes "password") request.query_params ≡ some password
      → Presents request password

take-drop : (n : ℕ) (t : Text) → take n t ++ drop n t ≡ t
unfolding take drop
take-drop zero t = refl
take-drop (suc n) [] = refl
take-drop (suc n) (c ∷ cs) = ap (λ x. c ∷ x) (take-drop n cs)

drop-cons : (n : ℕ) (t : Text) → n < length t → (c : ℕ) × (cs : Text) × (drop n t ≡ c ∷ cs)
unfolding drop
drop-cons zero [] h = absurd (omega arith)
drop-cons zero (c ∷ cs) h = (c, cs, refl)
drop-cons (suc n) [] h = absurd (omega arith)
drop-cons (suc n) (c ∷ cs) h = drop-cons n cs (omega arith)

bearer_token-token :
    (c : ℕ) (token : Text) → bearer_token (some (codes "Bearer " ++ (c ∷ token))) ≡ some (c ∷ token)
unfolding bearer_token take drop text_eq
bearer_token-token c token = ground arith

bearer_token_lem :
    (header : Option Text)
    → ((c : ℕ) × (token : Text) × (header ≡ some (codes "Bearer " ++ (c ∷ token)))
        × (bearer_token header ≡ some (c ∷ token)))
      ⊎ (NoToken header × (bearer_token header ≡ none))
unfolding bearer_token
bearer_token_lem none = inr (λ c token. cc, unfold bearer_token in refl)
bearer_token_lem (some t) =
    elim (Bool-cases (ltb 7 (length t) && text_eq (take 7 t) (codes "Bearer "))) [
      | inl e ↦
          let (c, token, k) = drop-cons 7 t (ground arith) in
          let front = (text_eq_iff (take 7 t) (codes "Bearer ")).0 (ground arith) in
          let whole : t ≡ codes "Bearer " ++ (c ∷ token) =
            sym (take-drop 7 t) ∙ (λ i. front i ++ k i) in
          inl (
            c,
            token,
            ap some whole,
            ap (λ x. bearer_token (some x)) whole ∙ bearer_token-token c token,
          )
      | inr e ↦
          let no : bearer_token (some t) ≡ none = rw (e, bearer_token) refl in
          inr (
            λ c token h.
                let yes = sym (ap bearer_token h ∙ bearer_token-token c token) ∙ no in cc yes,
            no,
          )
    ]

no_token : (header : Option Text) → NoToken header → bearer_token header ≡ none
no_token header n = elim (bearer_token_lem header) [
  | inr (_, e) ↦ e
  | inl (c, token, h, _) ↦ absurd (n c token h)
]

-- What the code takes for the password is what the request presents.
provided-Presents :
    (request : HttpRequest) (password : Text)
    → Presents request password
    → provided_password request ≡ some password
unfolding provided_password
provided-Presents request password (by_token c token h k) =
    let e = ap bearer_token h ∙ bearer_token-token c token in
    rw (e, provided_password) (ap some (sym k))
provided-Presents request password (by_header n h) =
    rw (no_token (authorization request) n, h, provided_password) refl
provided-Presents request password (by_query n h k) =
    rw (no_token (authorization request) n, h, provided_password) k

presented :
    (request : HttpRequest) (password : Text)
    → provided_password request ≡ some password
    → Presents request password
unfolding provided_password
presented request password k = elim (bearer_token_lem (authorization request)) [
  | inl (c, token, h, e) ↦ by_token c token h (cc (rw (e, provided_password) at k))
  | inr (n, e) ↦ elim (option_cases (lookup (codes "X-Admin-Password") request.headers)) [
    | inl (p, h) ↦ by_header n (h ∙ rw (e, h, provided_password) at k)
    | inr h ↦ by_query n h (rw (e, h, provided_password) at k)
  ]
]

module _ {ℓ κ} {W : Type ℓ} {S : Type κ} where
  -- The admin interface is enabled, and the request presents its password.
  abbrev pub IsAuthorized : TradingEngine W S → HttpRequest → Type 0
  IsAuthorized s request = (s.admin_enabled ≡ true) × Presents request s.admin_password

  pub authorized :
      (s : TradingEngine W S) (request : HttpRequest)
      → IsAuthorized s request
      → validate_admin_password s request ≡ true
  unfolding validate_admin_password
  authorized s request (on, p) =
      rw (on, provided-Presents request s.admin_password p, validate_admin_password)
        ((text_eq_iff s.admin_password s.admin_password).1 refl)

  validated :
      (s : TradingEngine W S) (request : HttpRequest)
      → validate_admin_password s request ≡ true
      → IsAuthorized s request
  unfolding validate_admin_password
  validated s request e = elim (Bool-cases s.admin_enabled) [
    | inr off ↦ cc (rw (off, validate_admin_password) at e)
    | inl on ↦ elim (option_cases (provided_password request)) [
      | inr n ↦ cc (rw (on, n, validate_admin_password) at e)
      | inl (p, k) ↦
          let same =
            (text_eq_iff p s.admin_password).0 (rw (on, k, validate_admin_password) at e) in
          (on, presented request s.admin_password (k ∙ ap some same))
    ]
  ]

  pub unauthorized_lem :
      (s : TradingEngine W S) (request : HttpRequest)
      → ¬ IsAuthorized s request
      → validate_admin_password s request ≡ false
  unauthorized_lem s request n = elim (Bool-cases (validate_admin_password s request)) [
    | inr e ↦ e
    | inl e ↦ absurd (n (validated s request e))
  ]
