-- ===== src/Common/Json.antt =====
-- The values that nlohmann::json builds and parses; its text form is a parameter where it is used.
use live_trading_engine.Common.{
  ℕ, Bool, true, false, Option, none, some, List, [], ◌∷◌, Text, text_eq, if◌then◌else◌,
}
use live_trading_engine.Common.Result.{Result, ok, err, bad_json}
use live_trading_engine.Common.Double.{Double}

mutual
  pub data Json {ℓ} (W : Type ℓ) : Type ℓ where
    null : Json W
    bool : Bool → Json W
    int : ℕ → Json W
    num : W → Json W
    text : Text → Json W
    arr : Items W → Json W
    obj : Fields W → Json W

  pub data Items {ℓ} (W : Type ℓ) : Type ℓ where
    nil : Items W
    cons : Json W → Items W → Items W

  pub data Fields {ℓ} (W : Type ℓ) : Type ℓ where
    end : Fields W
    field : Text → Json W → Fields W → Fields W

module _ {ℓ} {W : Type ℓ} where
  abbrev pub items : List (Json W) → Items W
  items [] = nil
  items (x ∷ xs) = cons x (items xs)

  abbrev pub fields : List (Text × Json W) → Fields W
  fields [] = end
  fields ((k, v) ∷ r) = field k v (fields r)

  -- The value under a key.
  unfoldable pub member : Fields W → Text → Option (Json W)
  member end k = none
  member (field j v r) k = if text_eq j k then some v else member r k

  -- json::contains
  unfoldable pub has_key : Json W → Text → Bool
  has_key (obj m) k = elim (member m k) [ none ↦ false | some v ↦ true ]
  has_key _ k = false

-- What the library does that is not the program's: it parses and prints, and words its exceptions.
pub record JsonLibrary {ℓ} (W : Type ℓ) : Type ℓ where
  pub parse : Text → Result (Json W)
  pub dump : Json W → Text
  -- what() of a missing key, and of a value of another type
  pub no_key : Text → Text
  pub wrong_type : Json W → Text

module _ {ℓ} {W : Type ℓ} (lib : JsonLibrary W) where
  -- json::at
  unfoldable pub at_key : Json W → Text → Result (Json W)
  unfolding member
  at_key (obj m) k = elim (member m k) [ none ↦ err (bad_json (lib.no_key k)) | some v ↦ ok v ]
  at_key j k = err (bad_json (lib.wrong_type j))

  -- The conversion to std::string.
  unfoldable pub as_text : Json W → Result Text
  as_text (text t) = ok t
  as_text j = err (bad_json (lib.wrong_type j))

  -- The conversion to double.
  unfoldable pub as_double : ⦃d : Double W⦄ → Json W → Result W
  as_double ⦃d⦄ (int n) = ok (d.lit n 0)
  as_double (num x) = ok x
  as_double j = err (bad_json (lib.wrong_type j))
