-- ===== src/Checks/LoadCell.antt =====
-- Runs of the load-cell torque controller.
use drivebrain_software.Base.{◌≡◌, refl, true, false, [], ◌∷◌, some, lookup, insert}
use drivebrain_software.Base.Int.{pos}
use drivebrain_software.Base.Text.{to_lowercase, tolower}
use drivebrain_software.Floats.{nought}
use drivebrain_software.Floats.Micros.{
  micros, micro_floats, micros-SignLaws, micro_floats-WidthLaws,
}
use drivebrain_software.Vehicle.{SpeedControlOut, speed_control}
use drivebrain_software.Params.Db.{ParamMap, get_param, bool_param, float_param}
use drivebrain_software.Params.Init.{init_params, param_name, param_value, add_param}
use drivebrain_software.Params.Kinds.{kind_of, bool_kind}
use drivebrain_software.LoadCell.Defs.{
  Config, init, handle_param_updates, accel_request, sum_normal, step_controller,
}
use drivebrain_software.LoadCell.Config.{vectoring_name, handle_param_updates-init}
use drivebrain_software.LoadCell.Torque.{IsUsable, Requested, step_controller-Requested}
use drivebrain_software.Checks.Samples.{sample_config, driving_state}

abbrev config : Config micro_floats
config = record {
  max_torque = pos 21_000_000;
  max_regen_torque = pos 10_000_000;
  rear_torque_scale = pos 1_200_000;
  regen_torque_scale = pos 600_000;
  positive_speed_set = pos 20_000_000_000;
  max_power_kw = pos 60_000_000;
  dt_rate_hz = pos 1000;
  apply_vectoring_in_regen = true;
}

config-IsUsable : IsUsable config driving_state.loadcells
unfolding sum_normal
config-IsUsable = record {
  torque_ok = refl;
  regen_ok = refl;
  scale_low = refl;
  scale_high = refl;
  loads_ok = record { on_fl = refl; on_fr = refl; on_rl = refl; on_rr = refl };
  sum_ok = refl;
}

step_controller-Requested_example :
    (out : SpeedControlOut micro_floats) × (step_controller micro_floats config driving_state
      ≡ speed_control out)
    × Requested (micros.le (nought micros) (accel_request micro_floats driving_state)) out
step_controller-Requested_example =
    step_controller-Requested micros-SignLaws micros-SignLaws micro_floats-WidthLaws config
      driving_state config-IsUsable

abbrev start : ParamMap micro_floats
start =
    ("loadcelltorquecontroller/max_torque", float_param (pos 21_000_000))
    ∷ ("loadcelltorquecontroller/max_regen_torque", float_param (pos 10_000_000))
    ∷ ("loadcelltorquecontroller/rear_torque_scale", float_param (pos 1_200_000))
    ∷ ("loadcelltorquecontroller/regen_torque_scale", float_param (pos 600_000))
    ∷ ("loadcelltorquecontroller/positive_speed_set", float_param (pos 20_000_000))
    ∷ ("loadcelltorquecontroller/max_power_kw", float_param (pos 60_000_000))
    ∷ ("loadcelltorquecontroller/dt_rate_hz", float_param (pos 1_000_000_000))
    ∷ ("loadcelltorquecontroller/apply_vectoring_in_regen", bool_param false)
    ∷ []

loads : (init micro_floats start config).1 ≡ true
unfolding init get_param lookup to_lowercase tolower
loads = refl

handle_param_updates-init_example :
    handle_param_updates micro_floats start config
    ≡ record ((init micro_floats start config).0) { apply_vectoring_in_regen = true }
handle_param_updates-init_example = handle_param_updates-init start config config loads

boolean_in_file :
    kind_of (lookup vectoring_name (init_params micro_floats sample_config "" [])) ≡ some bool_kind
unfolding init_params lookup add_param param_value insert param_name to_lowercase tolower
boolean_in_file = refl
