-- ===== src/Validation.antt =====
-- include/trading/validation/order_validator.hpp and src/validation/order_validator.cpp.
pub mod Rules
pub mod Symbols
use live_trading_engine.Common.{
  Bool, true, false, not, ◌&&◌, ◌||◌, List, [], ◌∷◌, ◌++◌, if◌then◌else◌, Text, text_eq, has_text,
  codes,
}
use live_trading_engine.Common.Double.{Double}
use live_trading_engine.Order.{Order, OrderType, is_market}

pub data ValidationError : Type 0 where
  none invalid_symbol invalid_quantity invalid_price invalid_order_type insufficient_funds
        market_closed duplicate_order_id :
      ValidationError

pub record ValidationResult : Type 0 where
  pub is_valid : Bool
  pub error : ValidationError
  pub error_message : Text

pub record OrderValidator {ℓ} (W : Type ℓ) : Type ℓ where
  pub valid_symbols : List Text
  pub min_quantity : W
  pub max_quantity : W
  pub min_price : W
  pub max_price : W
  pub market_open : Bool

-- std::remove and erase
unfoldable pub without : List Text → Text → List Text
without [] t = []
without (s ∷ ss) t = if text_eq s t then without ss t else s ∷ without ss t

abbrev pub is_empty : Text → Bool
is_empty [] = true
is_empty (c ∷ cs) = false

-- An empty list of symbols admits every symbol that is not empty.
unfoldable pub is_listed : List Text → Text → Bool
is_listed [] t = not (is_empty t)
is_listed (s ∷ ss) t = has_text (s ∷ ss) t

-- What the three tests answer.
abbrev pub checked : Bool → ValidationError → Text → ValidationResult
checked ok e message = record {
  is_valid = ok;
  error = if ok then none else e;
  error_message = if ok then [] else message;
}

module _ {ℓ} {W : Type ℓ} where
  unfoldable pub add_valid_symbol : OrderValidator W → Text → OrderValidator W
  add_valid_symbol v t =
      if has_text v.valid_symbols t
      then v
      else record v { valid_symbols = v.valid_symbols ++ (t ∷ []) }

  unfoldable pub remove_valid_symbol : OrderValidator W → Text → OrderValidator W
  remove_valid_symbol v t = record v { valid_symbols = without v.valid_symbols t }

  unfoldable pub set_min_quantity : OrderValidator W → W → OrderValidator W
  set_min_quantity v x = record v { min_quantity = x }

  unfoldable pub set_max_quantity : OrderValidator W → W → OrderValidator W
  set_max_quantity v x = record v { max_quantity = x }

  unfoldable pub set_min_price : OrderValidator W → W → OrderValidator W
  set_min_price v x = record v { min_price = x }

  unfoldable pub set_max_price : OrderValidator W → W → OrderValidator W
  set_max_price v x = record v { max_price = x }

  unfoldable pub set_market_open : OrderValidator W → Bool → OrderValidator W
  set_market_open v is_open = record v { market_open = is_open }

  unfoldable pub is_valid_symbol : OrderValidator W → Text → Bool
  is_valid_symbol v t = is_listed v.valid_symbols t

  unfoldable pub validate_symbol : OrderValidator W → Text → ValidationResult
  validate_symbol v t = checked (is_valid_symbol v t) invalid_symbol (codes "Invalid symbol: " ++ t)

module _ {ℓ} {W : Type ℓ} ⦃d : Double W⦄ where
  unfoldable pub new_validator : OrderValidator W
  new_validator = record {
    valid_symbols = [];
    min_quantity = d.lit 1 2;
    max_quantity = d.lit 1_000_000 0;
    min_price = d.lit 1 2;
    max_price = d.lit 1_000_000 0;
    market_open = true;
  }

  unfoldable pub is_valid_quantity : OrderValidator W → W → Bool
  is_valid_quantity v x = d.le v.min_quantity x && d.le x v.max_quantity

  unfoldable pub is_valid_price : OrderValidator W → W → Bool
  is_valid_price v x = d.le v.min_price x && d.le x v.max_price

  unfoldable pub validate_quantity : OrderValidator W → W → ValidationResult
  validate_quantity v x =
      checked (is_valid_quantity v x) invalid_quantity (codes "Invalid quantity: " ++ d.to_text x)

  unfoldable pub validate_price : OrderValidator W → W → OrderType → ValidationResult
  validate_price v x t =
      checked (is_market t || is_valid_price v x) invalid_price
        (codes "Invalid price: " ++ d.to_text x)

  -- The first test that fails answers.
  unfoldable pub validate : OrderValidator W → Order W → ValidationResult
  validate v o =
      if not v.market_open
      then checked false market_closed (codes "Market is closed")
      else if not (validate_symbol v o.symbol).is_valid
      then validate_symbol v o.symbol
      else if not (validate_quantity v o.quantity).is_valid
      then validate_quantity v o.quantity
      else validate_price v o.price o.type
