-- ===== src/Manager/Switch.antt =====
-- When a switch of controllers is allowed, against a description by bounds on the four wheels.
use drivebrain_software.Base.{◌≡◌, ◌↔◌, arith, true, false}
use drivebrain_software.Floats.{Floats}
use drivebrain_software.Vehicle.{
  VehVec, VehicleState, ControllerOutput, speed_control, torque_control, monostate, no_error,
}
use drivebrain_software.Manager.Defs.{
  Manager, check_veh_vec, verify_controller_output, can_switch_controller,
}

module _ (n : Floats) where
  open n use {Float, float}

  -- No wheel is above the limit.
  abbrev pub NoneAbove : Float → VehVec Float → Type 0
  NoneAbove limit v =
      (float.lt limit v.fl ≡ false)
      × (float.lt limit v.fr ≡ false)
      × (float.lt limit v.rl ≡ false)
      × (float.lt limit v.rr ≡ false)

  abbrev pub magnitudes : VehVec Float → VehVec Float
  magnitudes v = record {
    fl = float.abs v.fl;
    fr = float.abs v.fr;
    rl = float.abs v.rl;
    rr = float.abs v.rr;
  }

  check_veh_vec_iff :
      (v : VehVec Float) (limit : Float)
      → ((check_veh_vec n v limit false ≡ false) ↔ NoneAbove limit v)
        × ((check_veh_vec n v limit true ≡ false) ↔ NoneAbove limit (magnitudes v))
  unfolding check_veh_vec
  check_veh_vec_iff v limit = ground arith

module _ {n : Floats} {C : Type 0} where
  open n use {Float, float}

  -- An output that the manager accepts: a speed request with all set points within the limit in
  -- magnitude and all torque limits below theirs, or a torque request below it.
  abbrev pub IsWithin : Manager n C → ControllerOutput n → Type 0
  IsWithin m (speed_control out) =
      NoneAbove n m.max_rpm_req_switch (magnitudes n out.desired_rpms)
      × NoneAbove n m.max_torque_req_switch out.torque_lim_nm
  IsWithin m (torque_control out) = NoneAbove n m.max_torque_req_switch out.desired_torques_nm
  IsWithin m monostate = ⊥

  -- The car is slow enough, the driver is off the pedal, and both outputs are acceptable.
  abbrev pub MaySwitch :
      Manager n C → VehicleState n → ControllerOutput n → ControllerOutput n → Type 0
  MaySwitch m state previous next =
      NoneAbove n m.max_switch_rpm (magnitudes n state.current_rpms)
      × (float.lt m.max_accel_req_switch state.input.requested_accel ≡ false)
      × IsWithin m previous
      × IsWithin m next

  verify_iff :
      (m : Manager n C) (out : ControllerOutput n)
      → (verify_controller_output m out ≡ no_error) ↔ IsWithin m out
  unfolding verify_controller_output
  verify_iff m (speed_control out) = ground (
    arith,
    check_veh_vec_iff n out.desired_rpms m.max_rpm_req_switch,
    check_veh_vec_iff n out.torque_lim_nm m.max_torque_req_switch,
  )
  verify_iff m (torque_control out) =
      ground (arith, check_veh_vec_iff n out.desired_torques_nm m.max_torque_req_switch)
  verify_iff m monostate = ground arith

  -- A switch gets the verdict `NO_ERROR` exactly when the car is slow enough, the driver is off the
  -- pedal, and the outputs of both controllers are within the limits.
  pub can_switch_iff :
      (m : Manager n C) (state : VehicleState n) (previous next : ControllerOutput n)
      → (can_switch_controller m state previous next ≡ no_error) ↔ MaySwitch m state previous next
  unfolding can_switch_controller
  can_switch_iff m state previous next = ground (
    arith,
    check_veh_vec_iff n state.current_rpms m.max_switch_rpm,
    verify_iff m previous,
    verify_iff m next,
  )
