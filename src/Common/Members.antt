-- ===== src/Common/Members.antt =====
-- What is read from a JSON object whose members are known.
use live_trading_engine.Common.{◌≡◌, refl, true, false, ◌⊎◌, inl, inr, Option, none, some, Text}
use live_trading_engine.Common.Json.{
  Json, null, bool, int, num, text, arr, obj, Fields, member, has_key, JsonLibrary, at_key, as_text,
}
use live_trading_engine.Common.Result.{ok}

pub option_cases {ℓ} : {A : Type ℓ} (x : Option A) → ((a : A) × (x ≡ some a)) ⊎ (x ≡ none)
option_cases none = inr refl
option_cases (some a) = inl (a, refl)

module _ {ℓ} {W : Type ℓ} (m : Fields W) (k : Text) where
  pub has_key-some : (v : Json W) → member m k ≡ some v → has_key (obj m) k ≡ true
  unfolding has_key
  has_key-some v e = rw (e, has_key) refl

  pub has_key-none : member m k ≡ none → has_key (obj m) k ≡ false
  unfolding has_key
  has_key-none e = rw (e, has_key) refl

  pub at_key-some :
      (lib : JsonLibrary W) (v : Json W) → member m k ≡ some v → at_key lib (obj m) k ≡ ok v
  unfolding at_key
  at_key-some lib v e = rw (e, at_key) refl

-- Only a text converts to std::string, and to itself.
pub as_text_inv {ℓ} :
    {W : Type ℓ} (lib : JsonLibrary W) (j : Json W) (t : Text) → as_text lib j ≡ ok t → j ≡ text t
unfolding as_text
as_text_inv lib (text x) t e = cc
as_text_inv lib null t e = cc
as_text_inv lib (bool b) t e = cc
as_text_inv lib (int n) t e = cc
as_text_inv lib (num x) t e = cc
as_text_inv lib (arr xs) t e = cc
as_text_inv lib (obj m) t e = cc
