-- ===== src/Common/Texts.antt =====
-- std::string as the list of its bytes: equality, the order of its map keys, and std::to_string
-- of an unsigned number.
use Prim.Native.Nat.{ℕ, zero, suc, ◌+◌, ◌-◌, ◌*◌, ◌/◌, ◌%◌, ◌<◌}
use Prim.Native.Char.{code}
use Prim.Native.String.{String}
use Prim.Native.String as Str
use mathlib.Core.Path.{◌≡◌, refl, sym, ap, ◌∙◌}
use mathlib.Core.Logic.{◌↔◌, inl, inr}
use mathlib.Core.Bool.{Bool, true, false, ◌&&◌, ◌||◌}
use mathlib.Core.List.{List, [], ◌∷◌}
use native.Mathlib.Omega.{arith}
use live_trading_engine.Common.Tests.{Bool-cases, ltb, ◌==◌, if◌then◌else◌}

abbrev pub Text : Type 0
Text = List ℕ

abbrev pub codes : String → Text
codes Str.[] = []
codes (Str.◌∷◌ c s) = code c ∷ codes s

unfoldable pub text_eq : Text → Text → Bool
text_eq [] [] = true
text_eq [] (d ∷ ds) = false
text_eq (c ∷ cs) [] = false
text_eq (c ∷ cs) (d ∷ ds) = c == d && text_eq cs ds

-- Lexicographic, as std::less<std::string>.
unfoldable pub text_lt : Text → Text → Bool
text_lt [] [] = false
text_lt [] (d ∷ ds) = true
text_lt (c ∷ cs) [] = false
text_lt (c ∷ cs) (d ∷ ds) = if c == d then text_lt cs ds else ltb c d

pub text_eq_iff : (s t : Text) → (text_eq s t ≡ true) ↔ (s ≡ t)
unfolding text_eq
text_eq_iff [] [] = ground arith
text_eq_iff [] (d ∷ ds) = ground arith
text_eq_iff (c ∷ cs) [] = ground arith
text_eq_iff (c ∷ cs) (d ∷ ds) = ground (arith, text_eq_iff cs ds)

pub text_eq_refl : (s : Text) → text_eq s s ≡ true
text_eq_refl s = (text_eq_iff s s).1 refl

-- std::find(…) != end()
unfoldable pub has_text : List Text → Text → Bool
has_text [] t = false
has_text (s ∷ ss) t = text_eq s t || has_text ss t

-- No text is on the list twice.
abbrev pub IsDistinct : List Text → Type 0
IsDistinct [] = Unit
IsDistinct (s ∷ ss) = (has_text ss s ≡ false) × IsDistinct ss

-- The decimal digits of `n` before `out`; each round divides by ten.
unfoldable pub digits_to : ℕ → ℕ → Text → Text
digits_to zero n out = out
digits_to (suc f) n out =
    let rest = digits_to f (n / 10) ((48 + n % 10) ∷ out) in
    if ltb n 10 then (48 + n % 10) ∷ out else rest

unfoldable pub decimal : ℕ → Text
unfolding digits_to
decimal n = digits_to (suc n) n []

-- The number that a text of digits reads as, after the number `acc`.
read : ℕ → Text → ℕ
read acc [] = acc
read acc (c ∷ cs) = read (acc * 10 + (c - 48)) cs

-- Reading the digits back gives the number.
read-digits_to : (f n : ℕ) (out : Text) → n < f → read 0 (digits_to f n out) ≡ read n out
unfolding digits_to read
read-digits_to zero n out h = elim h [ ]
read-digits_to (suc f) n out h = elim (Bool-cases (ltb n 10)) [
  | inl small ↦ rw small (ap (λ k. read k out) (ground arith))
  | inr large ↦ rw large (
      read-digits_to f (n / 10) ((48 + n % 10) ∷ out) (ground arith)
      ∙ ap (λ k. read k out) (omega arith))
]

pub decimal-injective : (m n : ℕ) → decimal m ≡ decimal n → m ≡ n
unfolding decimal read
decimal-injective m n h =
    sym (read-digits_to (suc m) m [] (omega arith))
    ∙ ap (read 0) h
    ∙ read-digits_to (suc n) n [] (omega arith)
