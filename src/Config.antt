-- ===== src/Config.antt =====
-- include/trading/utils/config.hpp and src/utils/config.cpp: the settings, which are texts, and their
-- typed readers and writers.
pub mod Typed
use live_trading_engine.Common.{
  Bool, true, false, ◌||◌, Option, none, some, List, [], if◌then◌else◌, Text, text_eq, codes, ℕ,
}
use live_trading_engine.Common.Dict.{Dict, lookup, insert, keys}
use live_trading_engine.Common.Double.{Double}
use live_trading_engine.Common.Int.{ℤ}
use live_trading_engine.Common.Numbers.{stoi, to_string}

pub data ConfigError : Type 0 where
  file_not_found invalid_json key_not_found type_mismatch : ConfigError

pub data Expected {ℓ} (T : Type ℓ) : Type ℓ where
  value : T → Expected T
  error : ConfigError → Expected T

-- A section is a pointer to another Config, which nothing in the program sets.
pub record Config : Type 0 where
  pub config_data : Dict Text
  pub sections : Dict ℕ

module _ {ℓ} {T : Type ℓ} where
  unfoldable pub has_value : Expected T → Bool
  has_value (value x) = true
  has_value (error e) = false

-- Default construction, and clear.
abbrev pub new_config : Config
new_config = record { config_data = []; sections = [] }

unfoldable pub clear : Config → Config
clear c = record c { config_data = []; sections = [] }

-- Nothing is parsed.
unfoldable pub parse_json_object : Config → Text → Expected (Unit {0}) × Config
parse_json_object c json_string = (value tt, c)

unfoldable pub load_from_json : Config → Text → Expected (Unit {0}) × Config
unfolding parse_json_object
load_from_json c json_string = parse_json_object c json_string

-- `file` is what the file holds, `none` if it cannot be opened.
unfoldable pub load_from_file : Config → Option Text → Expected (Unit {0}) × Config
load_from_file c none = (error file_not_found, c)
load_from_file c (some buffer) = load_from_json c buffer

unfoldable pub get_value : Config → Text → Expected Text
get_value c key = elim (lookup key c.config_data) [ none ↦ error key_not_found | some v ↦ value v ]

unfoldable pub get_section : Config → Text → Expected ℕ
get_section c section_name = elim (lookup section_name c.sections) [
  | none ↦ error key_not_found
  | some s ↦ value s
]

unfoldable pub get_string : Config → Text → Expected Text
get_string c key = get_value c key

-- A conversion that throws is a mismatch.
abbrev pub converted {ℓ} : {T : Type ℓ} → Option T → Expected T
converted none = error type_mismatch
converted (some x) = value x

infixl 5 ◌>>=◌
abbrev pub ◌>>=◌ {ℓ} : {T : Type ℓ} → Expected Text → (Text → Expected T) → Expected T
value v >>= f = f v
error e >>= f = error e

unfoldable pub get_int : Config → Text → Expected ℤ
get_int c key = do v ← get_value c key; converted (stoi v)

abbrev pub is_true : Text → Bool
is_true v = text_eq v (codes "true") || (text_eq v (codes "1") || text_eq v (codes "yes"))

unfoldable pub get_bool : Config → Text → Expected Bool
get_bool c key = do v ← get_value c key; value (is_true v)

-- The getters with a default value.
unfoldable pub get_string_or : Config → Text → Text → Text
get_string_or c key default_value = elim (lookup key c.config_data) [
  | none ↦ default_value
  | some v ↦ v
]

abbrev or_default {ℓ} : {T : Type ℓ} → Option T → T → T
or_default none default_value = default_value
or_default (some x) default_value = x

unfoldable pub get_int_or : Config → Text → ℤ → ℤ
get_int_or c key default_value = elim (lookup key c.config_data) [
  | none ↦ default_value
  | some v ↦ or_default (stoi v) default_value
]

unfoldable pub get_bool_or : Config → Text → Bool → Bool
get_bool_or c key default_value = elim (lookup key c.config_data) [
  | none ↦ default_value
  | some v ↦ is_true v
]

unfoldable pub set_string : Config → Text → Text → Config
set_string c key v = record c { config_data = insert key v c.config_data }

unfoldable pub set_int : Config → Text → ℤ → Config
set_int c key i = record c { config_data = insert key (to_string i) c.config_data }

unfoldable pub set_bool : Config → Text → Bool → Config
set_bool c key b = record c {
  config_data = insert key (if b then codes "true" else codes "false") c.config_data;
}

-- `stod` is std::stod, `none` for its exceptions.
module _ {ℓ} {W : Type ℓ} ⦃d : Double W⦄ where
  unfoldable pub get_double : (Text → Option W) → Config → Text → Expected W
  get_double stod c key = do v ← get_value c key; converted (stod v)

  unfoldable pub get_double_or : (Text → Option W) → Config → Text → W → W
  get_double_or stod c key default_value = elim (lookup key c.config_data) [
    | none ↦ default_value
    | some v ↦ or_default (stod v) default_value
  ]

  unfoldable pub set_double : Config → Text → W → Config
  set_double c key x = record c { config_data = insert key (d.to_text x) c.config_data }

unfoldable pub has_key : Config → Text → Bool
has_key c key = elim (lookup key c.config_data) [ none ↦ false | some v ↦ true ]

unfoldable pub get_keys : Config → List Text
get_keys c = keys c.config_data
