-- ===== src/Floats/Micros.antt =====
-- An instance to evaluate with: all three types are integers, in millionths.
use drivebrain_software.Base.{ℕ, zero, suc, false, ◌*◌, ◌/◌, ◌^◌, ◌+◌, arith, ◌≡◌, refl, ◌==◌}
use drivebrain_software.Base.Int.{
  ℤ, pos, negsuc, pos_part, neg_part, sub_ℕ, ◌+ℤ◌, ◌-ℤ◌, ◌*ℤ◌, ◌/ℤ◌, ltb_ℤ, leb_ℤ, abs_ℤ,
}
use drivebrain_software.Floats.{Arith, Floats}
use drivebrain_software.Floats.Signs.{SignLaws, WidthLaws, IsNonneg, IsNonpos, IsPositive}

abbrev pub micros : Arith ℤ
micros = record {
  decimal = λ m k. pos (m * 1_000_000 / 10 ^ k);
  neg = λ x. pos 0 -ℤ x;
  abs = abs_ℤ;
  add = ◌+ℤ◌;
  sub = ◌-ℤ◌;
  mul = λ x y. x *ℤ y /ℤ pos 1_000_000;
  div = λ x y. x *ℤ pos 1_000_000 /ℤ y;
  lt = ltb_ℤ;
  le = leb_ℤ;
  eq = λ x y. pos_part x + neg_part y == pos_part y + neg_part x;
  of_int = λ x. x *ℤ pos 1_000_000;
  to_int = λ x. x /ℤ pos 1_000_000;
}

abbrev pub micro_floats : Floats
micro_floats = record {
  Float = ℤ;
  Double = ℤ;
  Long = ℤ;
  float = micros;
  double = micros;
  long = micros;
  float_to_double = λ x. x;
  double_to_float = λ x. x;
  float_to_long = λ x. x;
  double_to_long = λ x. x;
  long_to_double = λ x. x;
  long_to_float = λ x. x;
}

not_below : (n : ℕ) → ltb_ℤ (pos n) (pos 0) ≡ false
not_below n = ground arith

not_above : (n : ℕ) → ltb_ℤ (pos 0) (sub_ℕ 0 n) ≡ false
not_above n = ground arith

mul-pos-pos : (a b : ℕ) → pos a *ℤ pos b ≡ pos (a * b)
mul-pos-pos a b = ground arith

mul-negsuc-pos : (a b : ℕ) → negsuc a *ℤ pos b ≡ sub_ℕ 0 (suc a * b)
mul-negsuc-pos a b = ground arith

div-sub_ℕ : (n : ℕ) → sub_ℕ 0 n /ℤ pos 1_000_000 ≡ sub_ℕ 0 (n / 1_000_000)
div-sub_ℕ zero = refl
div-sub_ℕ (suc n) = ground arith

mul-IsNonneg : (x y : ℤ) → IsNonneg micros x → IsNonneg micros y → IsNonneg micros (micros.mul x y)
mul-IsNonneg (pos a) (pos b) p q = rw (mul-pos-pos a b) (not_below (a * b / 1_000_000))
mul-IsNonneg (pos a) (negsuc b) p q = absurd (ground arith)
mul-IsNonneg (negsuc a) y p q = absurd (ground arith)

mul-IsNonpos : (x y : ℤ) → IsNonpos micros x → IsNonneg micros y → IsNonpos micros (micros.mul x y)
mul-IsNonpos (pos zero) (pos b) p q = rw (mul-pos-pos 0 b) (ground arith)
mul-IsNonpos (pos (suc a)) (pos b) p q = absurd (ground arith)
mul-IsNonpos (negsuc a) (pos b) p q =
    rw (mul-negsuc-pos a b, div-sub_ℕ (suc a * b)) (not_above (suc a * b / 1_000_000))
mul-IsNonpos x (negsuc b) p q = absurd (ground arith)

div-IsNonneg :
    (x y : ℤ) → IsNonneg micros x → IsPositive micros y → IsNonneg micros (micros.div x y)
div-IsNonneg (pos a) (pos b) p q = rw (mul-pos-pos a 1_000_000) (not_below (a * 1_000_000 / b))
div-IsNonneg (pos a) (negsuc b) p q = absurd (ground arith)
div-IsNonneg (negsuc a) y p q = absurd (ground arith)

abs-IsNonneg : (x : ℤ) → IsNonneg micros (abs_ℤ x)
abs-IsNonneg x = ground arith

pub micros-SignLaws : SignLaws micros
micros-SignLaws = record {
  literal_nonneg = λ m k. not_below (m * 1_000_000 / 10 ^ k);
  mul_nonneg = mul-IsNonneg;
  mul_nonpos = mul-IsNonpos;
  div_nonneg = div-IsNonneg;
  sub_nonneg = λ x y p. ground arith;
  abs_nonneg = λ x. abs-IsNonneg x;
  nonneg_of_le = λ x p. ground arith;
  nonpos_of_not_le = λ x p. ground arith;
  lt_trans_nonpos = λ x y p q. ground arith;
}

pub micro_floats-WidthLaws : WidthLaws micro_floats
micro_floats-WidthLaws = record {
  widen_nonneg = λ x p. p;
  widen_nonpos = λ x p. p;
  narrow_nonneg = λ x p. p;
  narrow_nonpos = λ x p. p;
  widen_reflects = λ x. refl;
}
