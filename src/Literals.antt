-- ===== src/Literals.antt =====
-- drivebrain_core/include/Literals.hpp: constants in `long double`, and the user-defined literals
-- for speeds. A literal such as `11.86` is a `double` that is widened.
use drivebrain_software.Base.{ℕ}
use drivebrain_software.Floats.{Floats}

module _ (n : Floats) where
  open n use {Float, Long, double, double_to_long, long, long_to_float}
  open long use {mul, div}

  abbrev literal : ℕ → ℕ → Long
  literal digits decimals = double_to_long (double.decimal digits decimals)

  abbrev gearbox_ratio : Long
  gearbox_ratio = literal 1186 2

  abbrev wheel_diameter : Long
  wheel_diameter = literal 4064 4

  unfoldable pub rpm_to_meters_per_second : Long
  rpm_to_meters_per_second =
      div (div (mul wheel_diameter (literal 31415 4)) gearbox_ratio) (literal 60 0)

  unfoldable pub rpm_to_kilometers_per_hour : Long
  rpm_to_kilometers_per_hour = div (mul rpm_to_meters_per_second (literal 3600 0)) (literal 1000 0)

  unfoldable pub meters_per_second_to_rpm : Long
  unfolding rpm_to_meters_per_second
  meters_per_second_to_rpm = div (literal 1 0) rpm_to_meters_per_second

  -- `2.0 * 3.1415 / 60.0` is computed in `double`.
  unfoldable pub rpm_to_rad_per_second : Long
  rpm_to_rad_per_second =
      double_to_long (
        double.div (double.mul (double.decimal 2 0) (double.decimal 31415 4)) (double.decimal 60 0))

  unfoldable pub rad_per_second_to_rpm : Long
  unfolding rpm_to_rad_per_second
  rad_per_second_to_rpm = div (literal 1 0) rpm_to_rad_per_second

  -- `VehicleSpeed` and `AngularSpeed` hold a `float`; each literal gives what `get()` returns.
  pub record VehicleSpeed : Type 0 where
    pub meters_per_second : Float

  unfoldable pub m_s : Long → VehicleSpeed
  m_s s = record { meters_per_second = long_to_float s }

  unfoldable pub kph : Long → VehicleSpeed
  kph s = record { meters_per_second = long_to_float (mul s (literal 277778 6)) }

  unfoldable pub mph : Long → VehicleSpeed
  mph s = record { meters_per_second = long_to_float (mul s (literal 44704 5)) }

  unfoldable pub w_rpm : Long → VehicleSpeed
  w_rpm s = record { meters_per_second = long_to_float (mul s rpm_to_meters_per_second) }

  unfoldable pub w_rad_s : Long → VehicleSpeed
  w_rad_s s = record {
    meters_per_second = long_to_float (mul (mul s rad_per_second_to_rpm) rpm_to_meters_per_second);
  }

  pub record AngularSpeed : Type 0 where
    pub rpm : Float

  unfoldable pub rad_s : Long → AngularSpeed
  rad_s s = record { rpm = long_to_float (mul s rad_per_second_to_rpm) }
