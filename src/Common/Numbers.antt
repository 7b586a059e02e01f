-- ===== src/Common/Numbers.antt =====
-- The C++ standard library's readers of numbers, std::stoi and std::stoul, and std::to_string(int).
use live_trading_engine.Common.{
  ℕ, zero, suc, ◌+◌, ◌-◌, ◌*◌, ◌/◌, ◌%◌, ◌^◌, ◌<◌, ◌≤◌, ◌≡◌, refl, sym, ap, ◌∙◌, Bool-cases, Bool,
  true, false, ltb, leb, ◌==◌, inl, inr, if◌then◌else◌, All, Option, none, some, [], ◌∷◌, arith,
  Text, decimal,
}
use live_trading_engine.Common.Texts.{digits_to}
use live_trading_engine.Common.Int.{ℤ, pos, negsuc}
use live_trading_engine.Common.Streams.{is_space, is_digit, skip_spaces}

-- The number that the leading digits make behind `acc`.
unfoldable pub read_digits : ℕ → Text → ℕ
read_digits acc [] = acc
read_digits acc (c ∷ cs) =
    let rest = read_digits (acc * 10 + (c - 48)) cs in if is_digit c then rest else acc

-- There has to be a digit.
unfoldable pub read_number : Text → Option ℕ
read_number [] = none
read_number (c ∷ cs) = if is_digit c then some (read_digits 0 (c ∷ cs)) else none

abbrev pub negated : ℕ → ℤ
negated zero = pos 0
negated (suc n) = negsuc n

int_of : Option ℕ → Option ℤ
int_of none = none
int_of (some n) = if ltb n (2 ^ 31) then some (pos n) else none

negative_int_of : Option ℕ → Option ℤ
negative_int_of none = none
negative_int_of (some n) = if leb n (2 ^ 31) then some (negated n) else none

signed_int : Text → Option ℤ
signed_int [] = none
signed_int (c ∷ cs) =
    if c == b'-'
    then negative_int_of (read_number cs)
    else int_of (read_number (if c == b'+' then cs else c ∷ cs))

-- std::stoi; `none` for both exceptions. What follows the number is not looked at.
unfoldable pub stoi : Text → Option ℤ
unfolding signed_int int_of negative_int_of
stoi t = signed_int (skip_spaces t)

-- std::stoul: a number that is out of range is refused, a negative one wraps around.
unsigned_of : Bool → Option ℕ → Option ℕ
unsigned_of minus none = none
unsigned_of minus (some n) =
    if leb (2 ^ 64) n then none else if minus then some ((2 ^ 64 - n) % 2 ^ 64) else some n

signed_long : Text → Option ℕ
signed_long [] = none
signed_long (c ∷ cs) =
    if c == b'-'
    then unsigned_of true (read_number cs)
    else unsigned_of false (read_number (if c == b'+' then cs else c ∷ cs))

unfoldable pub stoul : Text → Option ℕ
unfolding signed_long unsigned_of
stoul t = signed_long (skip_spaces t)

unfoldable pub to_string : ℤ → Text
to_string (pos n) = decimal n
to_string (negsuc n) = b'-' ∷ decimal (suc n)

read_digits-digits_to :
    (f n : ℕ) (out : Text) → n < f → read_digits 0 (digits_to f n out) ≡ read_digits n out
unfolding digits_to read_digits is_digit
read_digits-digits_to zero n out h = elim h [ ]
read_digits-digits_to (suc f) n out h = elim (Bool-cases (ltb n 10)) [
  | inl small ↦ rw small (ground arith)
  | inr large ↦
      rw large
        (read_digits-digits_to f (n / 10) ((48 + n % 10) ∷ out) (ground arith) ∙ ground arith)
]

-- A decimal number starts with a digit.
digits_to_head :
    (f n : ℕ) (out : Text)
    → n < f
    → (c : ℕ) × (t : Text) × (digits_to f n out ≡ c ∷ t) × (is_digit c ≡ true)
unfolding digits_to is_digit
digits_to_head zero n out h = elim h [ ]
digits_to_head (suc f) n out h = elim (Bool-cases (ltb n 10)) [
  | inl small ↦ (48 + n % 10, out, rw small refl, ground arith)
  | inr large ↦ rw large (digits_to_head f (n / 10) ((48 + n % 10) ∷ out) (ground arith))
]

read_number-some :
    (c : ℕ) (t : Text) → is_digit c ≡ true → read_number (c ∷ t) ≡ some (read_digits 0 (c ∷ t))
unfolding read_number
read_number-some c t h = rw h refl

read_digits-decimal : (n : ℕ) → read_digits 0 (decimal n) ≡ n
unfolding decimal read_digits
read_digits-decimal n = read_digits-digits_to (suc n) n [] (omega arith)

read_number-digits :
    (n c : ℕ) (t : Text) → decimal n ≡ c ∷ t → is_digit c ≡ true → read_number (c ∷ t) ≡ some n
read_number-digits n c t e h =
    read_number-some c t h ∙ ap some (ap (read_digits 0) (sym e) ∙ read_digits-decimal n)

decimal_head : (n : ℕ) → (c : ℕ) × (t : Text) × (decimal n ≡ c ∷ t) × (is_digit c ≡ true)
unfolding decimal
decimal_head n = digits_to_head (suc n) n [] (omega arith)

digit-ne-sign :
    (c : ℕ)
    → is_digit c ≡ true
    → (is_space c ≡ false) × ((c == b'-') ≡ false) × ((c == b'+') ≡ false)
unfolding is_digit is_space
digit-ne-sign c h = ground arith

pub read_number-decimal : (n : ℕ) → read_number (decimal n) ≡ some n
read_number-decimal n =
    let (c, t, e, h) = decimal_head n in ap read_number e ∙ read_number-digits n c t e h

-- What is written in decimal, or with a sign before it, is read back.
pub stoi-decimal : (n : ℕ) → n < 2 ^ 31 → stoi (decimal n) ≡ some (pos n)
unfolding stoi skip_spaces
stoi-decimal n small =
    let (c, t, e, h) = decimal_head n in
    let (space, minus, plus) = digit-ne-sign c h in
    let number = read_number-digits n c t e h in
    ap stoi e ∙ rw (space, minus, plus, number) (ground arith)

-- A number that is no int makes std::stoi throw.
pub stoi-decimal_large : (n : ℕ) → 2 ^ 31 ≤ n → stoi (decimal n) ≡ none
unfolding stoi skip_spaces
stoi-decimal_large n large =
    let (c, t, e, h) = decimal_head n in
    let (space, minus, plus) = digit-ne-sign c h in
    let number = read_number-digits n c t e h in
    ap stoi e ∙ rw (space, minus, plus, number) (ground arith)

pub stoi-minus : (n : ℕ) → n < 2 ^ 31 → stoi (b'-' ∷ decimal (suc n)) ≡ some (negsuc n)
unfolding stoi skip_spaces is_space
stoi-minus n small = rw (read_number-decimal (suc n)) (ground arith)

pub stoul-decimal : (n : ℕ) → n < 2 ^ 64 → stoul (decimal n) ≡ some n
unfolding stoul skip_spaces
stoul-decimal n small =
    let (c, t, e, h) = decimal_head n in
    let (space, minus, plus) = digit-ne-sign c h in
    let number = read_number-digits n c t e h in
    ap stoul e ∙ rw (space, minus, plus, number) (ground arith)

-- An `int` is in range.
abbrev pub IsInt : ℤ → Type 0
IsInt (pos n) = n < 2 ^ 31
IsInt (negsuc n) = n < 2 ^ 31

pub stoi-to_string : (i : ℤ) → IsInt i → stoi (to_string i) ≡ some i
unfolding to_string
stoi-to_string (pos n) h = stoi-decimal n h
stoi-to_string (negsuc n) h = stoi-minus n h

int_of-IsInt : (o : Option ℕ) (i : ℤ) → int_of o ≡ some i → IsInt i
unfolding int_of
int_of-IsInt none i e = cc
int_of-IsInt (some n) (pos m) e = ground arith
int_of-IsInt (some n) (negsuc m) e = ground arith

negative_int_of-IsInt : (o : Option ℕ) (i : ℤ) → negative_int_of o ≡ some i → IsInt i
unfolding negative_int_of
negative_int_of-IsInt none i e = cc
negative_int_of-IsInt (some zero) (pos m) e = ground arith
negative_int_of-IsInt (some zero) (negsuc m) e = ground arith
negative_int_of-IsInt (some (suc n)) (pos m) e = ground arith
negative_int_of-IsInt (some (suc n)) (negsuc m) e = ground arith

signed_int-IsInt : (t : Text) (i : ℤ) → signed_int t ≡ some i → IsInt i
unfolding signed_int
signed_int-IsInt [] i e = cc
signed_int-IsInt (c ∷ cs) i e = elim (Bool-cases (c == b'-')) [
  | inl m ↦ negative_int_of-IsInt (read_number cs) i (rw m at e)
  | inr m ↦ int_of-IsInt _ i (rw m at e)
]

-- What stoi reads is an int.
pub stoi-IsInt : (t : Text) (i : ℤ) → stoi t ≡ some i → IsInt i
unfolding stoi
stoi-IsInt t i e = signed_int-IsInt (skip_spaces t) i e

-- A decimal number consists of digits.
digits_to-IsDigits :
    (f n : ℕ) (out : Text)
    → n < f
    → All (λ c. is_digit c ≡ true) out
    → All (λ c. is_digit c ≡ true) (digits_to f n out)
unfolding digits_to is_digit
digits_to-IsDigits zero n out h o = elim h [ ]
digits_to-IsDigits (suc f) n out h o = elim (Bool-cases (ltb n 10)) [
  | inl small ↦ rw small (ground arith, o)
  | inr large ↦
      rw large
        (digits_to-IsDigits f (n / 10) ((48 + n % 10) ∷ out) (ground arith) (ground arith, o))
]

pub decimal-IsDigits : (n : ℕ) → All (λ c. is_digit c ≡ true) (decimal n)
unfolding decimal
decimal-IsDigits n = digits_to-IsDigits (suc n) n [] (omega arith) tt

-- It starts with a zero only if it is zero.
digits_to_positive :
    (f n : ℕ) (out : Text)
    → n < f
    → 0 < n
    → (c : ℕ) × (t : Text) × (digits_to f n out ≡ c ∷ t) × ((c == b'0') ≡ false)
unfolding digits_to
digits_to_positive zero n out h p = elim h [ ]
digits_to_positive (suc f) n out h p = elim (Bool-cases (ltb n 10)) [
  | inl small ↦ (48 + n % 10, out, rw small refl, ground arith)
  | inr large ↦
      rw large (digits_to_positive f (n / 10) ((48 + n % 10) ∷ out) (ground arith) (ground arith))
]

pub decimal_positive :
    (n : ℕ) → 0 < n → (c : ℕ) × (t : Text) × (decimal n ≡ c ∷ t) × ((c == b'0') ≡ false)
unfolding decimal
decimal_positive n p = digits_to_positive (suc n) n [] (omega arith) p

pub decimal_zero : decimal 0 ≡ b'0' ∷ []
unfolding decimal digits_to
decimal_zero = refl

pub decimal_cons : (n : ℕ) → (c : ℕ) × (t : Text) × (decimal n ≡ c ∷ t)
decimal_cons n = let (c, t, e, h) = decimal_head n in (c, t, e)
