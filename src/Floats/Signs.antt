-- ===== src/Floats/Signs.antt =====
-- Laws of IEEE 754 arithmetic about signs. They are stated of "not below zero" and "not above
-- zero", which are both true of a NaN, so they hold of every value, infinities and NaN included.
use drivebrain_software.Base.{◌≡◌, true, false}
use drivebrain_software.Floats.{Arith, Floats, nought}

-- `!(x < 0)`
abbrev pub IsNonneg : {W : Type 0} → Arith W → W → Type 0
IsNonneg a x = a.lt x (nought a) ≡ false

-- `!(0 < x)`
abbrev pub IsNonpos : {W : Type 0} → Arith W → W → Type 0
IsNonpos a x = a.lt (nought a) x ≡ false

-- `0 < x`
abbrev pub IsPositive : {W : Type 0} → Arith W → W → Type 0
IsPositive a x = a.lt (nought a) x ≡ true

pub record SignLaws {W : Type 0} (a : Arith W) : Type 0 where
  pub literal_nonneg : (m k : _) → IsNonneg a (a.decimal m k)
  pub mul_nonneg : (x y : W) → IsNonneg a x → IsNonneg a y → IsNonneg a (a.mul x y)
  pub mul_nonpos : (x y : W) → IsNonpos a x → IsNonneg a y → IsNonpos a (a.mul x y)
  pub div_nonneg : (x y : W) → IsNonneg a x → IsPositive a y → IsNonneg a (a.div x y)
  pub sub_nonneg : (x y : W) → a.lt x y ≡ false → IsNonneg a (a.sub x y)
  pub nonneg_of_le : (x : W) → a.le (nought a) x ≡ true → IsNonneg a x
  pub nonpos_of_not_le : (x : W) → a.le (nought a) x ≡ false → IsNonpos a x
  pub abs_nonneg : (x : W) → IsNonneg a (a.abs x)
  -- A comparison is false of a NaN, and else turns round with the order.
  pub lt_trans_nonpos : (x y : W) → IsNonpos a x → IsNonneg a y → a.lt y x ≡ false

-- A change of width keeps the sign and the order with zero.
pub record WidthLaws (n : Floats) : Type 0 where
  pub widen_nonneg : (x : n.Float) → IsNonneg n.float x → IsNonneg n.double (n.float_to_double x)
  pub widen_nonpos : (x : n.Float) → IsNonpos n.float x → IsNonpos n.double (n.float_to_double x)
  pub narrow_nonneg : (x : n.Double) → IsNonneg n.double x → IsNonneg n.float (n.double_to_float x)
  pub narrow_nonpos : (x : n.Double) → IsNonpos n.double x → IsNonpos n.float (n.double_to_float x)
  pub widen_reflects :
      (x : n.Float)
      → n.double.le (nought n.double) (n.float_to_double x) ≡ n.float.le (nought n.float) x
