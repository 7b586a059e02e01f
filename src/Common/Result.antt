-- ===== src/Common/Result.antt =====
-- The two kinds of exceptions that the handlers catch, and results that may be one of them.
use live_trading_engine.Common.{◌≡◌, refl, ◌⊎◌, inl, inr, Text}

pub data Failure : Type 0 where
  -- json::exception, with what()
  bad_json : Text → Failure
  -- std::invalid_argument, with what()
  invalid_argument : Text → Failure

pub data Result {ℓ} (A : Type ℓ) : Type ℓ where
  ok : A → Result A
  err : Failure → Result A

infixl 5 ◌>>=◌
abbrev pub ◌>>=◌ {ℓ κ} : {A : Type ℓ} {B : Type κ} → Result A → (A → Result B) → Result B
ok a >>= f = f a
err e >>= f = err e

pub Result-cases {ℓ} :
    {A : Type ℓ} (r : Result A) → ((a : A) × (r ≡ ok a)) ⊎ ((f : Failure) × (r ≡ err f))
Result-cases (ok a) = inl (a, refl)
Result-cases (err f) = inr (f, refl)
