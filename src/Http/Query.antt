-- ===== src/Http/Query.antt =====
-- src/network/http_server.cpp: the decoding of URLs and the parameters of a query.
use live_trading_engine.Common.{
  ℕ, zero, suc, ◌+◌, ◌-◌, ◌*◌, ◌%◌, ◌&&◌, ◌||◌, leb, ◌==◌, Option, none, some, List, [], ◌∷◌,
  if◌then◌else◌, Text,
}
use live_trading_engine.Common.Dict.{Dict, insert}
use live_trading_engine.Common.Streams.{getlines, split_at, is_space}

unfoldable pub hex_digit : ℕ → Option ℕ
hex_digit c =
    if leb b'0' c && leb c b'9'
    then some (c - b'0')
    else if leb b'A' c && leb c b'F'
    then some (c - b'A' + 10)
    else if leb b'a' c && leb c b'f'
    then some (c - b'a' + 10)
    else none

-- A byte behind spaces and a sign.
abbrev signed_digit : ℕ → Option ℕ → Option ℕ
signed_digit a none = none
signed_digit a (some v) =
    if is_space a || a == b'+' then some v else if a == b'-' then some ((256 - v) % 256) else none

abbrev both_digits : Option ℕ → Option ℕ → Option ℕ
both_digits (some u) (some v) = some (u * 16 + v)
both_digits _ _ = none

-- The byte that std::strtol to the base 16 makes of two bytes, if it reads all that stands before
-- the terminating zero.
unfoldable pub hex_byte : ℕ → ℕ → Option ℕ
hex_byte zero b = some 0
hex_byte (suc a) zero = hex_digit (suc a)
hex_byte (suc a) (suc b) = elim (hex_digit (suc a)) [
  | some u ↦ both_digits (some u) (hex_digit (suc b))
  | none ↦ signed_digit (suc a) (hex_digit (suc b))
]

abbrev pub plain_byte : ℕ → ℕ
plain_byte c = if c == b'+' then b' ' else c

-- At a percent sign: the byte and what follows its digits, or the sign and what follows it.
abbrev pub escaped : Option ℕ → Text → Text → Text
escaped (some v) behind_digits behind_sign = v ∷ behind_digits
escaped none behind_digits behind_sign = b'%' ∷ behind_sign

unfoldable pub url_decode : Text → Text
url_decode [] = []
url_decode (c ∷ []) = plain_byte c ∷ []
url_decode (c ∷ a ∷ []) = plain_byte c ∷ url_decode (a ∷ [])
url_decode (c ∷ a ∷ b ∷ t) =
    let behind_digits = url_decode t in
    let behind_sign = url_decode (a ∷ b ∷ t) in
    if c == b'%'
    then escaped (hex_byte a b) behind_digits behind_sign
    else plain_byte c ∷ behind_sign

-- One parameter; without a sign of equality it has no value.
unfoldable pub add_parameter : Dict Text → Text → Option (Text × Text) → Dict Text
add_parameter params pair none = insert (url_decode pair) [] params
add_parameter params pair (some (key, v)) = insert (url_decode key) (url_decode v) params

unfoldable pub add_parameters : Dict Text → List Text → Dict Text
unfolding add_parameter
add_parameters params [] = params
add_parameters params (pair ∷ rest) =
    add_parameters (add_parameter params pair (split_at b'=' pair)) rest

unfoldable pub parse_query_parameters : Text → Dict Text
unfolding add_parameters
parse_query_parameters query_string = add_parameters [] (getlines b'&' query_string)
