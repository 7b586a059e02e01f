-- ===== src/Config/Typed.antt =====
-- What the typed readers of a Config give after its typed writers.
use live_trading_engine.Common.{
  ◌≡◌, ◌≢◌, ap, ◌∙◌, Bool, true, false, Text, text_eq, text_eq_iff, text_eq_refl, arith, codes,
  if◌then◌else◌,
}
use live_trading_engine.Common.Dict.{lookup-insert}
use live_trading_engine.Common.Int.{ℤ}
use live_trading_engine.Common.Numbers.{stoi, to_string, IsInt, stoi-to_string}
use live_trading_engine.Config.{
  Config, value, get_value, get_string, get_int, get_bool, converted, is_true, set_string, set_int,
  set_bool, ◌>>=◌,
}

-- All readings of a key.
abbrev pub Same : Config → Config → Text → Type 0
Same c c' j =
    (get_string c' j ≡ get_string c j)
    × (get_int c' j ≡ get_int c j)
    × (get_bool c' j ≡ get_bool c j)

get_value-Same : (c c' : Config) (j : Text) → get_value c' j ≡ get_value c j → Same c c' j
unfolding get_string get_int get_bool
get_value-Same c c' j e =
    (e, ap (λ r. r >>= λ v. converted (stoi v)) e, ap (λ r. r >>= λ v. value (is_true v)) e)

get_value-set_string :
    (c : Config) (k v j : Text)
    → get_value (set_string c k v) j ≡ (if text_eq k j then value v else get_value c j)
unfolding get_value set_string
get_value-set_string c k v j = ground (arith, lookup-insert j k v c.config_data)

get_value-set_self : (c : Config) (k v : Text) → get_value (set_string c k v) k ≡ value v
get_value-set_self c k v = ground (arith, get_value-set_string c k v k, text_eq_refl k)

set_string-Same : (c : Config) (k v j : Text) → j ≢ k → Same c (set_string c k v) j
set_string-Same c k v j h =
    get_value-Same c (set_string c k v) j
      (ground (arith, get_value-set_string c k v j, text_eq_iff k j))

get_bool-set_bool : (c : Config) (k : Text) (b : Bool) → get_bool (set_bool c k b) k ≡ value b
unfolding get_bool set_bool set_string text_eq
get_bool-set_bool c k true =
    ap (λ r. r >>= λ v. value (is_true v)) (get_value-set_self c k (codes "true"))
get_bool-set_bool c k false =
    ap (λ r. r >>= λ v. value (is_true v)) (get_value-set_self c k (codes "false"))

get_int-set_int : (c : Config) (k : Text) (i : ℤ) → IsInt i → get_int (set_int c k i) k ≡ value i
unfolding get_int set_int set_string
get_int-set_int c k i h =
    ap (λ r. r >>= λ v. converted (stoi v)) (get_value-set_self c k (to_string i))
    ∙ ap converted (stoi-to_string i h)

-- A setting that was written as a text, as a bool, or as any number in the range of an int is read
-- back as what was written, and no reading of another key changes.
pub setters_lem :
    (c : Config) (k v : Text) (i : ℤ) (b : Bool)
    → IsInt i
    → (get_string (set_string c k v) k ≡ value v)
      × (get_int (set_int c k i) k ≡ value i)
      × (get_bool (set_bool c k b) k ≡ value b)
      × ((j : Text) → j ≢ k → Same c (set_string c k v) j)
      × ((j : Text) → j ≢ k → Same c (set_int c k i) j)
      × ((j : Text) → j ≢ k → Same c (set_bool c k b) j)
unfolding get_string set_int set_bool set_string
setters_lem c k v i b h = (
  get_value-set_self c k v,
  get_int-set_int c k i h,
  get_bool-set_bool c k b,
  λ j ne. set_string-Same c k v j ne,
  λ j ne. set_string-Same c k (to_string i) j ne,
  λ j ne. set_string-Same c k (if b then codes "true" else codes "false") j ne,
)
