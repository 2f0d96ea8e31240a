-- ===== src/Tracker/Carried.antt =====
-- What each message does to each field of the tracker, as the tables of `Tracker.Latest` say.
use drivebrain_software.Base.{ℕ, ◌≡◌, arith, refl, Bool}
use drivebrain_software.Floats.{Floats}
use drivebrain_software.Vehicle.{DriverInput}
use drivebrain_software.Tracker.Messages.{Message, vn_data, InvDynamics, InvTemps}
use drivebrain_software.Tracker.Defs.{Tracker, handle_receive_protobuf_message}
use drivebrain_software.Tracker.Latest.{
  Wheel, at, dynamics_of, temps_of, overload_of, load_of, pot_of, input_of, steering_of, ready_of,
  pack_voltage_of, min_cell_of, newer,
}

module _ {n : Floats} where
  open n use {Float, float}

  abbrev pub handled : ℕ → Message n → Tracker n → Tracker n
  handled = handle_receive_protobuf_message n

  pub rpm_step :
      (w : Wheel) (now : ℕ) (m : Message n) (t : Tracker n)
      → at w (handled now m t).vehicle_state.current_rpms
        ≡ newer
            (λ (m : InvDynamics n). m.actual_speed_rpm)
            (dynamics_of w m)
            (at w t.vehicle_state.current_rpms)
  unfolding handle_receive_protobuf_message
  rpm_step w now m t = ground arith

  pub torque_step :
      (w : Wheel) (now : ℕ) (m : Message n) (t : Tracker n)
      → at w (handled now m t).raw_input_data.raw_inverter_torques
        ≡ newer
            (λ (m : InvDynamics n). m.actual_torque_nm)
            (dynamics_of w m)
            (at w t.raw_input_data.raw_inverter_torques)
  unfolding handle_receive_protobuf_message
  torque_step w now m t = ground arith

  pub igbt_step :
      (w : Wheel) (now : ℕ) (m : Message n) (t : Tracker n)
      → at w (handled now m t).vehicle_state.dt_data.inverter_igbt_temps_c
        ≡ newer
            (λ (m : InvTemps n). m.igbt_temp)
            (temps_of w m)
            (at w t.vehicle_state.dt_data.inverter_igbt_temps_c)
  unfolding handle_receive_protobuf_message
  igbt_step w now m t = ground arith

  pub inverter_temp_step :
      (w : Wheel) (now : ℕ) (m : Message n) (t : Tracker n)
      → at w (handled now m t).vehicle_state.dt_data.inverter_temps_c
        ≡ newer
            (λ (m : InvTemps n). m.inverter_temp)
            (temps_of w m)
            (at w t.vehicle_state.dt_data.inverter_temps_c)
  unfolding handle_receive_protobuf_message
  inverter_temp_step w now m t = ground arith

  pub motor_temp_step :
      (w : Wheel) (now : ℕ) (m : Message n) (t : Tracker n)
      → at w (handled now m t).vehicle_state.dt_data.inverter_motor_temps_c
        ≡ newer
            (λ (m : InvTemps n). m.motor_temp)
            (temps_of w m)
            (at w t.vehicle_state.dt_data.inverter_motor_temps_c)
  unfolding handle_receive_protobuf_message
  motor_temp_step w now m t = ground arith

  pub overload_step :
      (w : Wheel) (now : ℕ) (m : Message n) (t : Tracker n)
      → at w (handled now m t).vehicle_state.motor_overload_percentages
        ≡ newer
            (λ (x : Float). x)
            (overload_of w m)
            (at w t.vehicle_state.motor_overload_percentages)
  unfolding handle_receive_protobuf_message
  overload_step w now m t = ground arith

  pub load_step :
      (w : Wheel) (now : ℕ) (m : Message n) (t : Tracker n)
      → at w (handled now m t).raw_input_data.raw_load_cell_values
        ≡ newer (λ (x : Float). x) (load_of w m) (at w t.raw_input_data.raw_load_cell_values)
  unfolding handle_receive_protobuf_message
  load_step w now m t = ground arith

  pub pot_step :
      (w : Wheel) (now : ℕ) (m : Message n) (t : Tracker n)
      → at w (handled now m t).raw_input_data.raw_shock_pot_values
        ≡ newer (λ (x : Float). x) (pot_of w m) (at w t.raw_input_data.raw_shock_pot_values)
  unfolding handle_receive_protobuf_message
  pot_step w now m t = ground arith

  pub input_step :
      (now : ℕ) (m : Message n) (t : Tracker n)
      → (handled now m t).vehicle_state.input
        ≡ newer (λ (x : DriverInput n). x) (input_of m) t.vehicle_state.input
  unfolding handle_receive_protobuf_message
  input_step now (vn_data m) t = refl
  input_step now _ t = refl

  pub steering_step :
      (now : ℕ) (m : Message n) (t : Tracker n)
      → (handled now m t).raw_input_data.raw_steering_analog
        ≡ newer (λ (x : Float). x) (steering_of m) t.raw_input_data.raw_steering_analog
  unfolding handle_receive_protobuf_message
  steering_step now (vn_data m) t = refl
  steering_step now _ t = refl

  pub ready_step :
      (now : ℕ) (m : Message n) (t : Tracker n)
      → (handled now m t).vehicle_state.is_ready_to_drive
        ≡ newer (λ (x : Bool). x) (ready_of m) t.vehicle_state.is_ready_to_drive
  unfolding handle_receive_protobuf_message
  ready_step now (vn_data m) t = refl
  ready_step now _ t = refl

  pub pack_voltage_step :
      (now : ℕ) (m : Message n) (t : Tracker n)
      → (handled now m t).vehicle_state.acc_data.pack_voltage
        ≡ newer (λ (x : Float). x) (pack_voltage_of m) t.vehicle_state.acc_data.pack_voltage
  unfolding handle_receive_protobuf_message
  pack_voltage_step now (vn_data m) t = refl
  pack_voltage_step now _ t = refl

  pub min_cell_step :
      (now : ℕ) (m : Message n) (t : Tracker n)
      → (handled now m t).vehicle_state.acc_data.min_cell_voltage
        ≡ newer (λ (x : Float). x) (min_cell_of m) t.vehicle_state.acc_data.min_cell_voltage
  unfolding handle_receive_protobuf_message
  min_cell_step now (vn_data m) t = refl
  min_cell_step now _ t = refl
