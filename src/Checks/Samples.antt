-- ===== src/Checks/Samples.antt =====
-- Sample data for the concrete runs, over numbers in millionths.
use drivebrain_software.Base.{refl, Bool, true, false, String}
use drivebrain_software.Base.Int.{ℤ, pos}
use drivebrain_software.Floats.Micros.{micro_floats}
use drivebrain_software.Vehicle.{VehicleState, zero_vehicle_state, all_wheels}
use drivebrain_software.Params.Api.{
  ParameterApi, ParameterLaws, ParameterType, parameter_bool, parameter_integer, parameter_double,
  parameter_string,
}
use drivebrain_software.Params.Init.{
  Fields, end, field, object, boolean, number_float, number_integer, string,
}

-- A parameter's value in an implementation of `ParameterApi` to evaluate with.
pub data Value : Type 0 where
  of_truth : Bool → Value
  of_whole : ℤ → Value
  of_real : ℤ → Value
  of_text : String → Value

abbrev value_type : Value → ParameterType
value_type (of_truth _) = parameter_bool
value_type (of_whole _) = parameter_integer
value_type (of_real _) = parameter_double
value_type (of_text _) = parameter_string

abbrev value_bool : Value → Bool
value_bool (of_truth b) = b
value_bool _ = false

abbrev value_int : Value → ℤ
value_int (of_whole i) = i
value_int _ = pos 0

abbrev value_double : Value → ℤ
value_double (of_real x) = x
value_double _ = pos 0

abbrev value_string : Value → String
value_string (of_text s) = s
value_string _ = ""

abbrev pub values : ParameterApi ℤ
values = record {
  Parameter = String × Value;
  of_bool = λ k v. (k, of_truth v);
  of_int = λ k v. (k, of_whole v);
  of_double = λ k v. (k, of_real v);
  of_string = λ k v. (k, of_text v);
  get_name = λ p. p.0;
  get_type = λ p. value_type p.1;
  get_bool = λ p. value_bool p.1;
  get_int = λ p. value_int p.1;
  get_double = λ p. value_double p.1;
  get_string = λ p. value_string p.1;
}

pub values-ParameterLaws : ParameterLaws values
values-ParameterLaws = record {
  type_bool = λ k v. refl;
  type_int = λ k v. refl;
  type_double = λ k v. refl;
  type_string = λ k v. refl;
  value_bool = λ k v. refl;
  value_int = λ k v. refl;
  value_double = λ k v. refl;
  value_string = λ k v. refl;
}

-- A configuration file with a section of the torque controller.
abbrev pub sample_config : Fields micro_floats
sample_config =
    field "LoadCellTorqueController"
      (object (
        field "max_torque" (number_float (pos 21_000_000)) (
          field "max_regen_torque" (number_float (pos 10_000_000)) (
            field "rear_torque_scale" (number_float (pos 1_200_000)) (
              field "regen_torque_scale" (number_float (pos 600_000)) (
                field "positive_speed_set" (number_float (pos 20_000_000_000)) (
                  field "max_power_kw" (number_float (pos 60_000_000)) (
                    field "dt_rate_hz" (number_float (pos 1_000_000_000))
                      (field "apply_vectoring_in_regen" (boolean true) end)))))))))
      (field "driver" (string "first") (field "laps" (number_integer (pos 22)) end))

-- Load cells of 100 at the front, 150 at the rear, half throttle, 500 rpm.
abbrev pub driving_state : VehicleState micro_floats
driving_state = record (zero_vehicle_state micro_floats) {
  input = record { requested_accel = pos 500_000; requested_brake = pos 0 };
  current_rpms = all_wheels (pos 500_000_000);
  loadcells = record {
    fl = pos 100_000_000;
    fr = pos 100_000_000;
    rl = pos 150_000_000;
    rr = pos 150_000_000;
  };
}

-- The same car, slow and off the throttle.
abbrev pub coasting_state : VehicleState micro_floats
coasting_state = record driving_state {
  input = record { requested_accel = pos 0; requested_brake = pos 0 };
  current_rpms = all_wheels (pos 1_000_000);
}
