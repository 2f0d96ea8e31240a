-- ===== src/LoadCell/Defs.antt =====
-- The class `LoadCellTorqueController`: its configuration, the two ways to load it, and the step.
use drivebrain_software.Base.{
  Bool, true, false, not, String, Option, none, some, lookup, if◌then◌else◌,
}
use drivebrain_software.Base.Int.{ℤ}
use drivebrain_software.Floats.{Floats, nought}
use drivebrain_software.Params.Db.{ParamMap, get_param, get_if_float, get_if_bool}
use drivebrain_software.Vehicle.{VehVec, all_wheels, VehicleState, ControllerOutput, speed_control}

module _ (n : Floats) where
  open n use {Float, float, double, float_to_double, double_to_float}

  -- `struct config`
  pub record Config : Type 0 where
    pub max_torque : Float
    pub max_regen_torque : Float
    pub rear_torque_scale : Float
    pub regen_torque_scale : Float
    pub positive_speed_set : Float
    pub max_power_kw : Float
    pub dt_rate_hz : ℤ
    pub apply_vectoring_in_regen : Bool

  unfoldable pub get_dt_sec : Config → Float
  get_dt_sec c = double_to_float (double.div (double.decimal 1 0) (double.of_int c.dt_rate_hz))

  -- `find(name)`, then `std::get_if<float>`
  unfoldable pub find_float : ParamMap n → String → Option Float
  find_float m name = elim (lookup name m) [ none ↦ none | some p ↦ get_if_float n p ]

  abbrev pub or_keep : {A : Type 0} → Option A → A → A
  or_keep none old = old
  or_keep (some v) old = v

  -- The conversion of a `float` to `bool`.
  abbrev pub truth : Float → Bool
  truth x = not (float.eq x (nought float))

  abbrev pub map_float : {A : Type 0} → (Float → A) → Option Float → Option A
  map_float f none = none
  map_float f (some x) = some (f x)

  -- `_handle_param_updates`: every one of the eight parameters is asked for as a `float`.
  unfoldable pub handle_param_updates : ParamMap n → Config → Config
  handle_param_updates m c =
      let read = find_float m in
      record {
        max_torque = or_keep (read "loadcelltorquecontroller/max_torque") c.max_torque;
        max_regen_torque =
            or_keep (read "loadcelltorquecontroller/max_regen_torque") c.max_regen_torque;
        rear_torque_scale =
            or_keep (read "loadcelltorquecontroller/rear_torque_scale") c.rear_torque_scale;
        regen_torque_scale =
            or_keep (read "loadcelltorquecontroller/regen_torque_scale") c.regen_torque_scale;
        positive_speed_set =
            or_keep (read "loadcelltorquecontroller/positive_speed_set") c.positive_speed_set;
        max_power_kw = or_keep (read "loadcelltorquecontroller/max_power_kw") c.max_power_kw;
        dt_rate_hz =
            or_keep (map_float float.to_int (read "loadcelltorquecontroller/dt_rate_hz"))
              c.dt_rate_hz;
        apply_vectoring_in_regen =
            or_keep (map_float truth (read "loadcelltorquecontroller/apply_vectoring_in_regen"))
              c.apply_vectoring_in_regen;
      }

  -- The eight values that `init` reads, if all are there.
  unfoldable pub load_config :
      Option Float
      → Option Float
      → Option Float
      → Option Float
      → Option Float
      → Option Float
      → Option Float
      → Option Bool
      → Option Config
  load_config (some a) (some b) (some c) (some d) (some e) (some f) (some g) (some h) =
      some (record {
        max_torque = a;
        max_regen_torque = b;
        rear_torque_scale = c;
        regen_torque_scale = d;
        positive_speed_set = e;
        max_power_kw = f;
        dt_rate_hz = float.to_int g;
        apply_vectoring_in_regen = h;
      })
  load_config _ _ _ _ _ _ _ _ = none

  -- What `init` leaves and returns with the values that it read.
  abbrev pub init_result : Option Config → Config → Config × Bool
  init_result none old = (old, false)
  init_result (some c) old = (c, true)

  -- `init`: the result is false, and the configuration kept, if a parameter is missing. With true
  -- the controller has also registered `handle_param_updates` for parameter changes.
  unfoldable pub init : ParamMap n → Config → Config × Bool
  unfolding load_config
  init m old =
      let read = get_param n (get_if_float n) m in
      let loaded =
        load_config (read "LoadCellTorqueController/max_torque")
          (read "LoadCellTorqueController/max_regen_torque")
          (read "LoadCellTorqueController/rear_torque_scale")
          (read "LoadCellTorqueController/regen_torque_scale")
          (read "LoadCellTorqueController/positive_speed_set")
          (read "LoadCellTorqueController/max_power_kw")
          (read "LoadCellTorqueController/dt_rate_hz")
          (get_param n (get_if_bool n) m "LoadCellTorqueController/apply_vectoring_in_regen") in
      init_result loaded old

  -- `accelRequest`, from 1 for full throttle to -1 for full brake.
  unfoldable pub accel_request : VehicleState n → Float
  accel_request s = float.sub s.input.requested_accel s.input.requested_brake

  unfoldable pub sum_normal : VehVec Float → Float
  sum_normal l = float.add (float.add (float.add l.fl l.fr) l.rl) l.rr

  -- `2.0 - rear_torque_scale`, in `double`.
  unfoldable pub front_scale : Config → Floats.Double n
  front_scale c = double.sub (double.decimal 2 0) (float_to_double c.rear_torque_scale)

  -- The branch of a request that is not negative.
  unfoldable pub drive_torques : Config → Float → VehVec Float → VehVec Float
  unfolding front_scale sum_normal
  drive_torques c request loads =
      let pool = float.mul (float.mul request c.max_torque) (float.decimal 4 0) in
      let share = λ (load : Float). float.div load (sum_normal loads) in
      let front = λ (load : Float). double_to_float (
        double.mul (double.mul (front_scale c) (float_to_double pool))
          (float_to_double (share load))) in
      let rear = λ (load : Float). float.mul (float.mul c.rear_torque_scale pool) (share load) in
      record { fl = front loads.fl; fr = front loads.fr; rl = rear loads.rl; rr = rear loads.rr }

  -- The branch of a negative request, with torque vectoring.
  unfoldable pub vectored_regen_torques : Config → Float → VehVec Float → VehVec Float
  unfolding front_scale sum_normal
  vectored_regen_torques c request loads =
      let pool = float.mul (float.mul request c.max_regen_torque) (float.decimal 4 0) in
      let share = λ (load : Float). float.mul pool (float.div load (sum_normal loads)) in
      let front = λ (load : Float).
        double_to_float (double.mul (float_to_double (share load)) (front_scale c)) in
      let rear = λ (load : Float). float.mul (share load) c.rear_torque_scale in
      record { fl = front loads.fl; fr = front loads.fr; rl = rear loads.rl; rr = rear loads.rr }

  -- The same without vectoring: the loads do not matter.
  unfoldable pub plain_regen_torques : Config → Float → VehVec Float
  unfolding front_scale
  plain_regen_torques c request =
      let torque = float.mul request c.max_regen_torque in
      let front = double_to_float (double.mul (float_to_double torque) (front_scale c)) in
      let rear = float.mul torque c.rear_torque_scale in
      record { fl = front; fr = front; rl = rear; rr = rear }

  -- `step_controller`, with the configuration copied under the mutex. The locals `torqueRequest`
  -- and `max_rpm` are not used by the source.
  unfoldable pub step_controller : Config → VehicleState n → ControllerOutput n
  unfolding accel_request drive_torques vectored_regen_torques plain_regen_torques
  step_controller c s =
      let request = accel_request s in
      if double.le (nought double) (float_to_double request)
      then speed_control (record {
        mcu_recv_millis = s.prev_mcu_recv_millis;
        desired_rpms = all_wheels (float.decimal 20000 0);
        torque_lim_nm = drive_torques c request s.loadcells;
      })
      else speed_control (record {
        mcu_recv_millis = s.prev_mcu_recv_millis;
        desired_rpms = all_wheels (float.decimal 0 0);
        torque_lim_nm =
            if c.apply_vectoring_in_regen
            then vectored_regen_torques c request s.loadcells
            else plain_regen_torques c request;
      })
