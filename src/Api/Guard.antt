-- ===== src/Api/Guard.antt =====
-- Who may suspend trading, and what that does to the orders that come.
use live_trading_engine.Common.{
  ℕ, ◌≡◌, refl, ◌∙◌, true, false, not, List, [], ◌∷◌, arith, Text, codes, if-split,
}
use live_trading_engine.Common.Double.{Double}
use live_trading_engine.Common.Json.{JsonLibrary, Json}
use live_trading_engine.Pipeline.{
  TradingEngine, LogLevel, info, log, process_order_from_queue, process_all,
}
use live_trading_engine.Pipeline.Effects.{IsUntouched}
use live_trading_engine.Api.{HttpRequest, HttpResponse, json_response, create_error_response}
use live_trading_engine.Api.Password.{IsAuthorized, authorized, unauthorized_lem}
use live_trading_engine.Api.Admin.{
  validate_admin_password, guarded, unauthorized, stop_trading, handle_admin_stop_trading,
  handle_admin_resume_trading, handle_admin_flush_system, handle_admin_status,
}

module _ {ℓ κ} {W : Type ℓ} {S : Type κ} ⦃d : Double W⦄ where
  -- The answer is 401, and only the log differs.
  abbrev pub IsRefused : TradingEngine W S → HttpResponse × TradingEngine W S → Type (ℓ ⊔ κ)
  IsRefused s (response, s') =
      (response.status_code ≡ 401) × IsUntouched s s' × (s'.trading_active ≡ s.trading_active)

  password_log :
      (level : LogLevel) (m : Text) (s : TradingEngine W S) (request : HttpRequest)
      → validate_admin_password (log level m s) request ≡ validate_admin_password s request
  unfolding validate_admin_password log
  password_log level m s request = refl

  -- A message that comes while trading is suspended.
  skipped :
      (clock : ℕ → ℕ) (lib : JsonLibrary W) (s : TradingEngine W S) (m : Text)
      → s.trading_active ≡ false
      → IsUntouched s (process_order_from_queue clock lib s m)
        × ((process_order_from_queue clock lib s m).trading_active ≡ false)
  unfolding process_order_from_queue log
  skipped clock lib s m off =
      if-split (λ (x : TradingEngine W S). IsUntouched s x × (x.trading_active ≡ false))
        (not s.trading_active) _ _ (λ _. ((refl, refl), off)) λ e. absurd (ground arith)

  all_skipped :
      (clock : ℕ → ℕ) (lib : JsonLibrary W) (messages : List Text) (s s' : TradingEngine W S)
      → IsUntouched s s'
      → s'.trading_active ≡ false
      → IsUntouched s (process_all clock lib s' messages)
  unfolding process_all
  all_skipped clock lib [] s s' u off = u
  all_skipped clock lib (m ∷ ms) s s' u off =
      let (u1, off1) = skipped clock lib s' m off in
      all_skipped clock lib ms s (process_order_from_queue clock lib s' m) (u1.0 ∙ u.0, u1.1 ∙ u.1)
        off1

  module _ (lib : JsonLibrary W) (now : ℕ) (s : TradingEngine W S) (request : HttpRequest) where
    guarded_refuses :
        (s' : TradingEngine W S) (allowed : HttpResponse × TradingEngine W S)
        → validate_admin_password s' request ≡ false
        → IsUntouched s s'
        → s'.trading_active ≡ s.trading_active
        → IsRefused s (guarded lib now s' request allowed)
    unfolding guarded unauthorized create_error_response json_response
    guarded_refuses s' allowed h u a =
        if-split (IsRefused s) (not (validate_admin_password s' request)) _ _ (λ _. (refl, u, a))
          λ e. absurd (ground arith)

    -- Unless the admin interface is enabled and the request presents its password - as a bearer token
    -- that is not empty, or, without one, in the header X-Admin-Password, or, without both, as a query
    -- parameter - every admin request is answered by 401 and changes nothing: not the books, the users
    -- or the orders, nor whether trading is active.
    pub admin_refuses :
        ¬ IsAuthorized s request
        → IsRefused s (handle_admin_stop_trading lib now s request)
          × IsRefused s (handle_admin_resume_trading lib now s request)
          × IsRefused s (handle_admin_flush_system lib now s request)
          × ((extra : List (Text × Json W))
              → IsRefused s (handle_admin_status lib now extra s request))
    unfolding handle_admin_stop_trading handle_admin_resume_trading handle_admin_flush_system
        handle_admin_status log
    admin_refuses n =
        let h = unauthorized_lem s request n in
        (
          guarded_refuses (log info (codes "handleAdminStopTrading called") s) _
              (password_log info (codes "handleAdminStopTrading called") s request ∙ h) (refl, refl)
              refl,
          guarded_refuses s _ h (refl, refl) refl,
          guarded_refuses s _ h (refl, refl) refl,
          λ extra. guarded_refuses s _ h (refl, refl) refl,
        )

    guarded_allows :
        (s' : TradingEngine W S) (allowed : HttpResponse × TradingEngine W S)
        → validate_admin_password s' request ≡ true
        → guarded lib now s' request allowed ≡ allowed
    unfolding guarded
    guarded_allows s' allowed h =
        if-split (λ x. x ≡ allowed) (not (validate_admin_password s' request)) _ _
          (λ e. absurd (ground arith)) λ _. refl

    stopped :
        (s' : TradingEngine W S)
        → IsUntouched s s'
        → IsUntouched s (stop_trading lib now s').1
          × ((stop_trading lib now s').1.trading_active ≡ false)
    unfolding stop_trading log
    stopped s' u =
        if-split
          (λ (x : HttpResponse × TradingEngine W S).
            IsUntouched s x.1 × (x.1.trading_active ≡ false))
          (not s'.trading_active) _ _ (λ e. (u, ground arith)) λ _. (u, refl)

    -- If the admin interface is enabled and the request presents its password, trading is suspended,
    -- whether it was active or not, and from then on no message of the queue, those that were queued
    -- before included, changes the books, the users or the orders.
    pub stop_suspends :
        (clock : ℕ → ℕ) (messages : List Text)
        → IsAuthorized s request
        → let s' = (handle_admin_stop_trading lib now s request).1 in
          (s'.trading_active ≡ false) × IsUntouched s (process_all clock lib s' messages)
    unfolding handle_admin_stop_trading
    stop_suspends clock messages a =
        let h = authorized s request a in
        let called = log info (codes "handleAdminStopTrading called") s in
        let ok = password_log info (codes "handleAdminStopTrading called") s request ∙ h in
        let same = guarded_allows called (stop_trading lib now called) ok in
        let (u, off) = stopped called (unfold log in (refl, refl)) in
        rw same (off, all_skipped clock lib messages s _ u off)
