-- ===== src/Tracker/Fields.antt =====
-- The published state after any messages is made of the latest values.
use drivebrain_software.Base.{ℕ, ◌≡◌, refl, ap, ◌∙◌, Bool, false, List, Option}
use drivebrain_software.Floats.{Floats, nought}
use drivebrain_software.Vehicle.{VehVec, all_wheels, DriverInput, VehicleState}
use drivebrain_software.Tracker.Messages.{Message, InvDynamics, InvTemps}
use drivebrain_software.Tracker.Clock.{Stamps}
use drivebrain_software.Tracker.Defs.{Tracker, construct, receive_all}
use drivebrain_software.Tracker.Sync.{IsSynced, construct-IsSynced, receive_all-IsSynced}
use drivebrain_software.Tracker.Latest.{
  Wheel, front_left, front_right, rear_left, rear_right, at, dynamics_of, temps_of, overload_of,
  load_of, pot_of, input_of, steering_of, ready_of, pack_voltage_of, min_cell_of, newer, latest,
  latest-receive_all,
}
use drivebrain_software.Tracker.Carried.{
  handled, rpm_step, torque_step, igbt_step, inverter_temp_step, motor_temp_step, overload_step,
  load_step, pot_step, input_step, steering_step, ready_step, pack_voltage_step, min_cell_step,
}

at-all_wheels : {A : Type 0} (w : Wheel) (x : A) → at w (all_wheels x) ≡ x
at-all_wheels front_left x = refl
at-all_wheels front_right x = refl
at-all_wheels rear_left x = refl
at-all_wheels rear_right x = refl

module _ {n : Floats} where
  open n use {Float, float}

  -- A vehicle state in which every value read here is the latest that the messages carry.
  pub record IsLatest (es : List (ℕ × Message n)) (s : VehicleState n) : Type 0 where
    pub rpms :
        (w : Wheel)
        → at w s.current_rpms
          ≡ latest (dynamics_of w) (λ (m : InvDynamics n). m.actual_speed_rpm) (nought float) es
    pub torques :
        (w : Wheel)
        → at w s.current_torques_nm
          ≡ latest (dynamics_of w) (λ (m : InvDynamics n). m.actual_torque_nm) (nought float) es
    pub igbt_temps :
        (w : Wheel)
        → at w s.dt_data.inverter_igbt_temps_c
          ≡ latest (temps_of w) (λ (m : InvTemps n). m.igbt_temp) (nought float) es
    pub inverter_temps :
        (w : Wheel)
        → at w s.dt_data.inverter_temps_c
          ≡ latest (temps_of w) (λ (m : InvTemps n). m.inverter_temp) (nought float) es
    pub motor_temps :
        (w : Wheel)
        → at w s.dt_data.inverter_motor_temps_c
          ≡ latest (temps_of w) (λ (m : InvTemps n). m.motor_temp) (nought float) es
    pub overloads :
        (w : Wheel)
        → at w s.motor_overload_percentages
          ≡ latest (overload_of w) (λ (x : Float). x) (nought float) es
    pub loads :
        (w : Wheel) → at w s.loadcells ≡ latest (load_of w) (λ (x : Float). x) (nought float) es
    pub pots :
        (w : Wheel)
        → at w s.suspension_potentiometers_mm
          ≡ latest (pot_of w) (λ (x : Float). x) (nought float) es
    pub input :
        s.input
        ≡ latest input_of
            (λ (x : DriverInput n). x)
            (record { requested_accel = nought float; requested_brake = nought float })
            es
    pub steering : s.steering_angle_deg ≡ latest steering_of (λ (x : Float). x) (nought float) es
    pub ready : s.is_ready_to_drive ≡ latest ready_of (λ (x : Bool). x) false es
    pub pack_voltage :
        s.acc_data.pack_voltage ≡ latest pack_voltage_of (λ (x : Float). x) (nought float) es
    pub min_cell_voltage :
        s.acc_data.min_cell_voltage ≡ latest min_cell_of (λ (x : Float). x) (nought float) es

  -- A vector that starts at zero has the latest value for each wheel.
  wheel_latest :
      {A : Type 0} (vec : Tracker n → VehVec Float) (carried : Wheel → Message n → Option A)
      (f : A → Float)
      → ((w : Wheel) (now : ℕ) (m : Message n) (t : Tracker n)
          → at w (vec (handled now m t)) ≡ newer f (carried w m) (at w (vec t)))
      → (es : List (ℕ × Message n)) (t : Tracker n) → vec t ≡ all_wheels (nought float)
      → (w : Wheel) → at w (vec (receive_all n es t)) ≡ latest (carried w) f (nought float) es
  wheel_latest vec carried f step es t zero w =
      latest-receive_all (λ u. at w (vec u)) (carried w) f (step w) es t
      ∙ ap (λ b. latest (carried w) f b es) (ap (at w) zero ∙ at-all_wheels w (nought float))

  -- After any messages, in any order and at any times, every value that the tracker publishes for
  -- the wheels, the pedals, the steering, the drive status and the accumulator is that of the latest
  -- message that carries it, and zero or false before the first.
  pub receive_all-IsLatest :
      (garbage : Stamps) (es : List (ℕ × Message n))
      → IsLatest es (receive_all n es (construct n garbage)).vehicle_state
  unfolding construct
  receive_all-IsLatest garbage es = record {
    rpms = wheel_latest (λ t. t.vehicle_state.current_rpms) dynamics_of _ rpm_step es start refl;
    torques = λ w.
        ap (at w) synced.torques
        ∙ wheel_latest (λ t. t.raw_input_data.raw_inverter_torques) dynamics_of _ torque_step es
            start refl w;
    igbt_temps =
        wheel_latest (λ t. t.vehicle_state.dt_data.inverter_igbt_temps_c) temps_of _ igbt_step es
          start refl;
    inverter_temps =
        wheel_latest (λ t. t.vehicle_state.dt_data.inverter_temps_c) temps_of _ inverter_temp_step
          es start refl;
    motor_temps =
        wheel_latest (λ t. t.vehicle_state.dt_data.inverter_motor_temps_c) temps_of _
          motor_temp_step es start refl;
    overloads =
        wheel_latest (λ t. t.vehicle_state.motor_overload_percentages) overload_of _ overload_step
          es start refl;
    loads = λ w.
        ap (at w) synced.loads
        ∙ wheel_latest (λ t. t.raw_input_data.raw_load_cell_values) load_of _ load_step es start
            refl w;
    pots = λ w.
        ap (at w) synced.pots
        ∙ wheel_latest (λ t. t.raw_input_data.raw_shock_pot_values) pot_of _ pot_step es start refl
            w;
    input = latest-receive_all (λ t. t.vehicle_state.input) input_of _ input_step es start;
    steering =
        synced.steering
        ∙ latest-receive_all (λ t. t.raw_input_data.raw_steering_analog) steering_of _ steering_step
            es start;
    ready =
        latest-receive_all (λ t. t.vehicle_state.is_ready_to_drive) ready_of _ ready_step es start;
    pack_voltage =
        latest-receive_all (λ t. t.vehicle_state.acc_data.pack_voltage) pack_voltage_of _
          pack_voltage_step es start;
    min_cell_voltage =
        latest-receive_all (λ t. t.vehicle_state.acc_data.min_cell_voltage) min_cell_of _
          min_cell_step es start;
  }
    where
      start : Tracker n
      start = construct n garbage

      synced : IsSynced (receive_all n es (construct n garbage))
      synced = receive_all-IsSynced es (construct n garbage) (construct-IsSynced garbage)
