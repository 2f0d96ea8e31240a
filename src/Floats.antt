-- ===== src/Floats.antt =====
-- The floating-point types of the program (`float`, `double`, `long double`) with the operations
-- that it uses. They are the language's, not the program's: a parameter of the models that compute
-- with them. `Floats.Signs` has the laws that proofs assume of them, `Floats.Micros` an instance.
pub mod Signs
pub mod Micros
use drivebrain_software.Base.{ℕ, Bool}
use drivebrain_software.Base.Int.{ℤ}

-- One floating-point type. `decimal m k` is the literal with the digits `m` and `k` decimals.
pub record Arith (W : Type 0) : Type 0 where
  pub decimal : ℕ → ℕ → W
  pub neg : W → W
  pub abs : W → W
  pub add : W → W → W
  pub sub : W → W → W
  pub mul : W → W → W
  pub div : W → W → W
  pub lt : W → W → Bool
  pub le : W → W → Bool
  pub eq : W → W → Bool
  pub of_int : ℤ → W
  pub to_int : W → ℤ

pub record Floats : Type 1 where
  pub Float : Type 0
  pub Double : Type 0
  pub Long : Type 0
  pub float : Arith Float
  pub double : Arith Double
  pub long : Arith Long
  pub float_to_double : Float → Double
  pub double_to_float : Double → Float
  pub float_to_long : Float → Long
  pub double_to_long : Double → Long
  pub long_to_double : Long → Double
  pub long_to_float : Long → Float

-- The literal `0`.
abbrev pub nought : {W : Type 0} → Arith W → W
nought a = a.decimal 0 0
