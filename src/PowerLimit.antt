-- ===== src/PowerLimit.antt =====
-- drivebrain_control/src/SimplePowerLimiter.cpp: torque limits scaled down to a power limit.
use drivebrain_software.Base.{if◌then◌else◌}
use drivebrain_software.Floats.{Floats, nought}
use drivebrain_software.Literals.{rpm_to_rad_per_second}
use drivebrain_software.Vehicle.{VehVec, SpeedControlOut}

module _ (n : Floats) where
  open n use {
    Float, Long, float, double, long, float_to_double, double_to_float, float_to_long,
    double_to_long, long_to_double, long_to_float,
  }

  -- `::fabs` of a `float`, stored as a `float`: the absolute value is taken as a `double`.
  unfoldable pub fabs : Float → Float
  fabs x = double_to_float (double.abs (float_to_double x))

  -- `net_torque_mag += ::fabs(torque)`
  unfoldable pub add_torque : Float → Float → Float
  add_torque total torque =
      double_to_float (double.add (float_to_double total) (double.abs (float_to_double torque)))

  -- `rpm * constants::RPM_TO_RAD_PER_SECOND`
  unfoldable pub rad_per_second : Float → Long
  rad_per_second rpm = long.mul (float_to_long rpm) (rpm_to_rad_per_second n)

  -- `net_power += ::fabs(torque) * (rpm * RPM_TO_RAD_PER_SECOND)`
  unfoldable pub add_power : Float → Float → Float → Float
  unfolding rad_per_second
  add_power total torque rpm = long_to_float (
      long.add (float_to_long total)
        (long.mul (double_to_long (double.abs (float_to_double torque))) (rad_per_second rpm)))

  unfoldable pub net_torque_mag : VehVec Float → Float
  unfolding add_torque
  net_torque_mag t =
      add_torque (add_torque (add_torque (add_torque (nought float) t.fl) t.fr) t.rl) t.rr

  unfoldable pub net_power : VehVec Float → VehVec Float → Float
  unfolding add_power
  net_power t rpms =
      let fl = add_power (nought float) t.fl rpms.fl in
      let fr = add_power fl t.fr rpms.fr in
      let rl = add_power fr t.rl rpms.rl in add_power rl t.rr rpms.rr

  -- The three numbered steps of a corner.
  unfoldable pub corner : (net_torque max_power_watt torque rpm : Float) → Float
  unfolding fabs rad_per_second
  corner net_torque max_power_watt torque rpm =
      let torque_percent = fabs (float.div torque net_torque) in
      let power_per_corner = float.mul torque_percent max_power_watt in
      double_to_float (
        double.abs
          (long_to_double (long.div (float_to_long power_per_corner) (rad_per_second rpm))))

  unfoldable pub max_power_watt : Float → Float
  max_power_watt max_power_kw = float.mul max_power_kw (float.decimal 1000 0)

  -- `apply_power_limit`
  unfoldable pub apply_power_limit : SpeedControlOut n → VehVec Float → Float → SpeedControlOut n
  unfolding net_power net_torque_mag corner max_power_watt
  apply_power_limit current_control rpms max_power_kw =
      let t = current_control.torque_lim_nm in
      let net = net_torque_mag t in
      let watt = max_power_watt max_power_kw in
      if float.lt watt (net_power t rpms)
      then record current_control {
        torque_lim_nm = record {
          fl = corner net watt t.fl rpms.fl;
          fr = corner net watt t.fr rpms.fr;
          rl = corner net watt t.rl rpms.rl;
          rr = corner net watt t.rr rpms.rr;
        };
      }
      else current_control
