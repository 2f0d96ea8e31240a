-- ===== src/Manager/Defs.antt =====
-- The class `ControllerManager`. A controller is a value with a step that may change it: `C` with
-- `ControllerOps`, the interface `control::Controller`. A null pointer is `none`; a dereference of
-- one, or an index out of the array, is `none` as a result. The array holds distinct objects.
use drivebrain_software.Base.{
  ℕ, Bool, true, false, ◌||◌, List, Option, none, some, leb, ◌==◌, if◌then◌else◌, length, get_elem?,
  set,
}
use drivebrain_software.Floats.{Floats}
use drivebrain_software.Literals.{meters_per_second_to_rpm}
use drivebrain_software.Params.Db.{ParamMap, get_param, get_if_float}
use drivebrain_software.Vehicle.{
  VehVec, VehicleState, ControllerOutput, speed_control, torque_control, monostate,
  ControllerManagerState, ControllerManagerStatus, no_error, error_controller_index_out_of_range,
  error_speed_too_high, error_torque_too_high, error_driver_on_pedal,
  error_controller_no_torque_or_speed_output, error_output_exceeds_phys_limits,
  error_requesting_same_ctr_type, error_nullptr_controller,
}

-- `control::Controller<ControllerOutput, VehicleState>`
pub record ControllerOps (n : Floats) (C : Type 0) : Type 0 where
  pub get_dt_sec : C → Floats.Float n
  pub step_controller : VehicleState n → C → ControllerOutput n × C

pub record Manager (n : Floats) (C : Type 0) : Type 0 where
  pub current_controller_index : ℕ
  pub current_ctr_manager_state : ControllerManagerState n
  pub controllers : List (Option C)
  pub max_switch_rpm : Floats.Float n
  pub max_torque_req_switch : Floats.Float n
  pub max_accel_req_switch : Floats.Float n
  pub max_rpm_req_switch : Floats.Float n

-- `std::optional::value_or`
abbrev value_or : {A : Type 0} → Option A → A → A
value_or none d = d
value_or (some x) d = x

-- The verdict on the two outputs: that of the next one, unless it alone is fine.
unfoldable pub combine : ControllerManagerStatus → ControllerManagerStatus → ControllerManagerStatus
combine prev no_error = prev
combine prev switch = switch

abbrev pub is_no_error : ControllerManagerStatus → Bool
is_no_error no_error = true
is_no_error _ = false

module _ (n : Floats) where
  open n use {Float, float}

  -- The lambda `check_veh_vec`: a wheel above the limit, by value or by magnitude.
  unfoldable pub check_veh_vec : VehVec Float → Float → Bool → Bool
  check_veh_vec v max_val check_with_abs =
      if check_with_abs
      then float.lt max_val (float.abs v.fl)
        || float.lt max_val (float.abs v.fr)
        || float.lt max_val (float.abs v.rl)
        || float.lt max_val (float.abs v.rr)
      else float.lt max_val v.fl
        || float.lt max_val v.fr
        || float.lt max_val v.rl
        || float.lt max_val v.rr

module _ {n : Floats} {C : Type 0} where
  open n use {Float, float, double_to_float, double, float_to_long, long, long_to_float}

  -- The constructor. `_current_ctr_manager_state` is not initialised: `garbage` is what it holds.
  unfoldable pub construct : ControllerManagerState n → List (Option C) → ParamMap n → Manager n C
  construct garbage controllers params =
      let read = get_param n (get_if_float n) params in
      let max_speed = read "controllermanager/max_controller_switch_speed_ms" in
      let max_torque = read "controllermanager/max_torque_switch_nm" in
      let max_accel = read "controllermanager/max_accel_switch_float" in
      let max_rpm = read "controllermanager/max_requested_rpm" in
      record {
        current_controller_index = 0;
        current_ctr_manager_state = garbage;
        controllers = controllers;
        max_switch_rpm = long_to_float (
            long.mul (float_to_long (value_or max_speed (float.decimal 5 0)))
              (meters_per_second_to_rpm n));
        max_torque_req_switch = value_or max_torque (float.decimal 10 0);
        max_accel_req_switch = value_or max_accel (float.decimal 5 1);
        max_rpm_req_switch = value_or max_rpm (double_to_float (double.decimal 20000 0));
      }

  abbrev pub set_status : Manager n C → ControllerManagerStatus → Manager n C
  set_status m s = record m {
    current_ctr_manager_state = record (m.current_ctr_manager_state) { current_status = s };
  }

  unfoldable pub init : Manager n C → Manager n C × Bool
  init m = if float.lt (float.decimal 1 0) m.max_accel_req_switch then (m, false) else (
    record m {
      current_ctr_manager_state = record {
        current_status = no_error;
        current_controller_output = monostate;
      };
    },
    true,
  )

  unfoldable pub update_controllers : List (Option C) → Manager n C → Manager n C
  update_controllers cs m = record m { controllers = cs }

  -- The lambda `verify_controller_output`.
  unfoldable pub verify_controller_output :
      Manager n C → ControllerOutput n → ControllerManagerStatus
  verify_controller_output m (speed_control out) =
      if check_veh_vec n out.desired_rpms m.max_rpm_req_switch true
      then error_output_exceeds_phys_limits
      else if check_veh_vec n out.torque_lim_nm m.max_torque_req_switch false
      then error_torque_too_high
      else no_error
  verify_controller_output m (torque_control out) =
      if check_veh_vec n out.desired_torques_nm m.max_torque_req_switch false
      then error_torque_too_high
      else no_error
  verify_controller_output m monostate = error_controller_no_torque_or_speed_output

  -- `_can_switch_controller` returns what it stores in `current_status`.
  unfoldable pub can_switch_controller :
      Manager n C
      → VehicleState n
      → ControllerOutput n
      → ControllerOutput n
      → ControllerManagerStatus
  unfolding combine
  can_switch_controller m state previous next =
      if check_veh_vec n state.current_rpms m.max_switch_rpm true
      then error_speed_too_high
      else if float.lt m.max_accel_req_switch state.input.requested_accel
      then error_driver_on_pedal
      else combine (verify_controller_output m previous) (verify_controller_output m next)

  module _ (ops : ControllerOps n C) where
    open ops use {step_controller}

    -- The end of `swap_active_controller`: both controllers are stepped, the new one first.
    unfoldable pub attempt_swap : ℕ → VehicleState n → Manager n C → C → C → Manager n C × Bool
    attempt_swap i input m new_controller current =
        let (next_output, new_controller') = step_controller input new_controller in
        let (previous_output, current') = step_controller input current in
        let stepped = record m {
          controllers =
              set (set m.controllers i (some new_controller')) m.current_controller_index
                (some current');
        } in
        let verdict = can_switch_controller m input previous_output next_output in
        if is_no_error verdict
        then (
          record stepped {
            current_controller_index = i;
            current_ctr_manager_state = record {
              current_status = verdict;
              current_controller_output = next_output;
            };
          },
          true,
        )
        else (set_status stepped verdict, false)

    -- `swap_active_controller`
    unfoldable pub swap_active_controller :
        ℕ → VehicleState n → Manager n C → Option (Manager n C × Bool)
    unfolding attempt_swap
    swap_active_controller i input m =
        if leb (length m.controllers) i
        then some (set_status m error_controller_index_out_of_range, false)
        else if m.current_controller_index == i
        then some (set_status m error_requesting_same_ctr_type, false)
        else elim (get_elem? m.controllers i) [
          | none ↦ none
          | some none ↦ some (set_status m error_nullptr_controller, false)
          | some (some new_controller) ↦ elim (get_elem? m.controllers m.current_controller_index) [
            | none ↦ none
            | some none ↦ none
            | some (some current) ↦ some (attempt_swap i input m new_controller current)
          ]
        ]

    -- `step_active_controller`
    unfoldable pub step_active_controller :
        VehicleState n → Manager n C → Option (Manager n C × ControllerOutput n)
    step_active_controller input m = elim (get_elem? m.controllers m.current_controller_index) [
      | none ↦ none
      | some none ↦ some (set_status m error_nullptr_controller, monostate)
      | some (some c) ↦
          let (out, c') = step_controller input c in
          some
            (record m { controllers = set m.controllers m.current_controller_index (some c') }, out)
    ]

    -- `get_active_controller_timestep`: no null check.
    unfoldable pub get_active_controller_timestep : Manager n C → Option Float
    get_active_controller_timestep m = elim (get_elem? m.controllers m.current_controller_index) [
      | some (some c) ↦ some (ops.get_dt_sec c)
      | _ ↦ none
    ]
