-- ===== src/Common/Double.antt =====
-- All that the code does with a `double`, as an interface, the laws that its proofs use, and a
-- concrete instance, the whole numbers, at which the model runs.
use live_trading_engine.Common.{
  ℕ, zero, suc, ◌≤◌, ◌*◌, ◌/◌, ◌^◌, ◌≡◌, refl, ◌⊎◌, Bool, true, not, ◌++◌, arith, leb,
  if◌then◌else◌, Text, codes, decimal,
}
use live_trading_engine.Common.Int.{
  ℤ, pos, negsuc, pos_part, ◌+ℤ◌, ◌-ℤ◌, ◌*ℤ◌, ◌/ℤ◌, ltb_ℤ, leb_ℤ, int_laws, +ℤ_parts, -ℤ_parts,
}

pub record Double {ℓ} (W : Type ℓ) : Type ℓ where
  -- `lit m k` is the literal m / 10 ^ k.
  pub lit : ℕ → ℕ → W
  pub add : W → W → W
  pub sub : W → W → W
  pub mul : W → W → W
  pub div : W → W → W
  pub le : W → W → Bool
  pub lt : W → W → Bool
  pub sqrt : W → W
  pub is_finite : W → Bool
  -- std::to_string(double)
  pub to_text : W → Text
  -- operator<< to a stream
  pub print : W → Text

module _ {ℓ} {W : Type ℓ} ⦃d : Double W⦄ where
  -- 0.0
  abbrev pub nought : W
  nought = d.lit 0 0

  -- std::min and std::max
  unfoldable pub min : W → W → W
  min a b = if d.lt b a then b else a

  unfoldable pub max : W → W → W
  max a b = if d.lt a b then b else a

  infix 4 ◌≼◌ ◌≺◌
  abbrev pub ◌≼◌ : W → W → Type 0
  x ≼ y = d.le x y ≡ true

  abbrev pub ◌≺◌ : W → W → Type 0
  x ≺ y = d.lt x y ≡ true

  -- Not a NaN.
  abbrev pub IsNum : W → Type 0
  IsNum x = d.le x x ≡ true

  abbrev pub IsFinite : W → Type 0
  IsFinite x = d.is_finite x ≡ true

-- Laws that hold of IEEE 754 doubles under the default rounding, NaN, the infinities and the
-- signed zeros included.
pub record IsIeee {ℓ} (W : Type ℓ) ⦃d : Double W⦄ : Type ℓ where
  pub le_num : (x y : W) → x ≼ y → IsNum x × IsNum y
  pub le_trans : (x y z : W) → x ≼ y → y ≼ z → x ≼ z
  pub le_total : (x y : W) → IsNum x → IsNum y → (x ≼ y) ⊎ (y ≼ x)
  pub lt_num : (x y : W) → x ≺ y → IsNum x × IsNum y
  pub lt-eq-not-le : (x y : W) → IsNum x → IsNum y → d.lt x y ≡ not (d.le y x)
  pub finite_num : (x : W) → IsFinite x → IsNum x
  pub lit_finite : (m k : ℕ) → m ≤ 2 ^ 53 → IsFinite (d.lit m k)
  pub lit_nonneg : (m k : ℕ) → nought ≼ d.lit m k
  pub sub_self : (x : W) → IsFinite x → d.sub x x ≡ nought
  pub sub_zero : (x : W) → d.sub x nought ≡ x
  pub sub_nonneg : (x y : W) → IsFinite y → y ≼ x → nought ≼ d.sub x y
  pub sub_le : (x y : W) → IsFinite y → nought ≼ y → y ≼ x → d.sub x y ≼ x
  pub sub_finite : (x y : W) → IsFinite x → nought ≼ y → y ≼ x → IsFinite (d.sub x y)
  pub sub_num : (x y : W) → IsNum x → IsFinite y → IsNum (d.sub x y)
  pub le_add : (x y : W) → nought ≼ x → nought ≼ y → y ≼ d.add x y
  pub finite_between : (a x b : W) → IsFinite a → IsFinite b → a ≼ x → x ≼ b → IsFinite x
  pub add_nonneg : (x y : W) → nought ≼ x → nought ≼ y → nought ≼ d.add x y
  pub mul_nonneg :
      (x y : W) → IsFinite x → IsFinite y → nought ≼ x → nought ≼ y → nought ≼ d.mul x y

-- Sums and differences without rounding. Doubles obey these laws as long as no result is rounded.
pub record IsExact {ℓ} (W : Type ℓ) ⦃d : Double W⦄ : Type ℓ where
  pub add_assoc : (x y z : W) → d.add (d.add x y) z ≡ d.add x (d.add y z)
  pub add_comm : (x y : W) → d.add x y ≡ d.add y x
  pub zero_add : (x : W) → d.add nought x ≡ x
  pub sub_add : (x y : W) → d.add (d.sub x y) y ≡ x
  pub add_sub : (x y : W) → d.sub (d.add x y) y ≡ x

-- The greatest k from `f` down with k * k ≤ n.
unfoldable pub root_below : ℕ → ℕ → ℕ
root_below zero n = 0
root_below (suc f) n = let rest = root_below f n in if leb (suc f * suc f) n then suc f else rest

unfoldable pub show_int : ℤ → Text
show_int (pos n) = decimal n ++ codes ".000000"
show_int (negsuc n) = codes "-" ++ (decimal (suc n) ++ codes ".000000")

instance abbrev pub int_double : Double ℤ
int_double = record {
  lit = λ m k. pos (m / 10 ^ k);
  add = ◌+ℤ◌;
  sub = ◌-ℤ◌;
  mul = ◌*ℤ◌;
  div = ◌/ℤ◌;
  le = leb_ℤ;
  lt = ltb_ℤ;
  sqrt = λ x. pos (root_below (pos_part x) (pos_part x));
  is_finite = λ _. true;
  to_text = show_int;
  print = show_int;
}

module _ where
  int_le-IsNum : (x y : ℤ) → x ≼ y → IsNum x × IsNum y
  int_le-IsNum x y h = ground arith

  int_le_trans : (x y z : ℤ) → x ≼ y → y ≼ z → x ≼ z
  int_le_trans x y z h k = ground arith

  int_le_total : (x y : ℤ) → IsNum x → IsNum y → (x ≼ y) ⊎ (y ≼ x)
  int_le_total x y h k = ground arith

  int_lt-eq-not-le : (x y : ℤ) → IsNum x → IsNum y → ltb_ℤ x y ≡ not (leb_ℤ y x)
  int_lt-eq-not-le x y h k = ground arith

  int_sub_self : (x : ℤ) → x -ℤ x ≡ pos (0 / 10 ^ 0)
  int_sub_self x = omega int_laws

  int_sub_zero : (x : ℤ) → x -ℤ pos (0 / 10 ^ 0) ≡ x
  int_sub_zero x = omega int_laws

  int_sub_nonneg : (x y : ℤ) → y ≼ x → nought ≼ x -ℤ y
  int_sub_nonneg x y h = ground (arith, -ℤ_parts x y)

  int_sub_le : (x y : ℤ) → nought ≼ y → y ≼ x → x -ℤ y ≼ x
  int_sub_le x y h k = ground (arith, -ℤ_parts x y)

  int_sub-IsNum : (x y : ℤ) → IsNum (x -ℤ y)
  int_sub-IsNum x y = ground arith

  int_le_add : (x y : ℤ) → nought ≼ x → y ≼ x +ℤ y
  int_le_add x y h = ground (arith, +ℤ_parts x y)

  int_add_nonneg : (x y : ℤ) → nought ≼ x → nought ≼ y → nought ≼ x +ℤ y
  int_add_nonneg x y h k = ground (arith, +ℤ_parts x y)

  int_mul_nonneg : (x y : ℤ) → nought ≼ x → nought ≼ y → nought ≼ x *ℤ y
  unfolding ◌*ℤ◌
  int_mul_nonneg (pos m) (pos n) h k = ground arith
  int_mul_nonneg (pos m) (negsuc n) h k = ground arith
  int_mul_nonneg (negsuc m) y h k = ground arith

-- The whole numbers obey the laws of the doubles.
pub Int-IsIeee : IsIeee ℤ
Int-IsIeee = record {
  le_num = int_le-IsNum;
  le_trans = int_le_trans;
  le_total = int_le_total;
  lt_num = λ x y h. ground arith;
  lt-eq-not-le = int_lt-eq-not-le;
  finite_num = λ x h. ground arith;
  lit_finite = λ m k h. refl;
  lit_nonneg = λ m k. ground arith;
  sub_self = λ x h. int_sub_self x;
  sub_zero = int_sub_zero;
  sub_nonneg = λ x y _ h. int_sub_nonneg x y h;
  sub_le = λ x y _ h k. int_sub_le x y h k;
  sub_finite = λ x y _ _ _. refl;
  sub_num = λ x y _ _. int_sub-IsNum x y;
  le_add = λ x y h _. int_le_add x y h;
  finite_between = λ a x b h k f g. refl;
  add_nonneg = int_add_nonneg;
  mul_nonneg = λ x y _ _ h k. int_mul_nonneg x y h k;
}

-- They also add without rounding.
pub Int-IsExact : IsExact ℤ
Int-IsExact = record {
  add_assoc = λ x y z. omega int_laws;
  add_comm = λ x y. omega int_laws;
  zero_add = λ x. omega int_laws;
  sub_add = λ x y. omega int_laws;
  add_sub = λ x y. omega int_laws;
}
