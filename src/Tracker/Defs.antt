-- ===== src/Tracker/Defs.antt =====
-- The class `StateTracker`. Times are microseconds since the epoch; `now` is what the clock says
-- inside the critical section.
use drivebrain_software.Base.{ℕ, Bool, List, [], ◌∷◌}
use drivebrain_software.Floats.{Floats}
use drivebrain_software.Vehicle.{
  set_from_index, RawInputData, VehicleState, ControllerOutput, zero_raw_input, zero_vehicle_state,
}
use drivebrain_software.Tracker.Clock.{Stamps, validate_timestamps}
use drivebrain_software.Tracker.Messages.{
  Message, vn_data, vcr_data_s, acu_all_data, rear_suspension, front_suspension, pedals_system_data,
  steering_data, em_measurement, inv1_dynamics, inv2_dynamics, inv3_dynamics, inv4_dynamics,
  inv1_temps, inv2_temps, inv3_temps, inv4_temps, inv1_overload, inv2_overload, inv3_overload,
  inv4_overload, inv1_status, InvDynamics, InvTemps,
}

module _ (n : Floats) where
  open n use {Float, float}
  open float use {neg, mul, div, decimal}

  pub record Tracker : Type 0 where
    pub vehicle_state : VehicleState n
    pub raw_input_data : RawInputData n
    pub timestamp_array : Stamps

  -- The constructor initialises all but the timestamps: `garbage` is what their memory holds.
  unfoldable pub construct : Stamps → Tracker
  construct garbage = record {
    vehicle_state = zero_vehicle_state n;
    raw_input_data = zero_raw_input n;
    timestamp_array = garbage;
  }

  unfoldable pub set_previous_control_output : ControllerOutput n → Tracker → Tracker
  set_previous_control_output out t = record t {
    vehicle_state = record (t.vehicle_state) { prev_controller_output = out };
  }

  -- `_handle_set_inverter_dynamics<ind, …>`
  unfoldable pub handle_set_inverter_dynamics : ℕ → InvDynamics n → Tracker → Tracker
  handle_set_inverter_dynamics ind m t =
      let raw = record (t.raw_input_data) {
        raw_inverter_torques =
            set_from_index ind m.actual_torque_nm t.raw_input_data.raw_inverter_torques;
        raw_inverter_power =
            set_from_index ind m.actual_power_w t.raw_input_data.raw_inverter_power;
      } in
      record t {
        raw_input_data = raw;
        vehicle_state = record (t.vehicle_state) {
          current_rpms = set_from_index ind m.actual_speed_rpm t.vehicle_state.current_rpms;
          current_torques_nm = raw.raw_inverter_torques;
        };
      }

  -- The four branches for the inverters' temperatures write one wheel of each vector.
  unfoldable pub set_inverter_temps : ℕ → InvTemps n → Tracker → Tracker
  set_inverter_temps ind m t =
      let dt = t.vehicle_state.dt_data in
      record t {
        vehicle_state = record (t.vehicle_state) {
          dt_data = record {
            inverter_igbt_temps_c = set_from_index ind m.igbt_temp dt.inverter_igbt_temps_c;
            inverter_temps_c = set_from_index ind m.inverter_temp dt.inverter_temps_c;
            inverter_motor_temps_c = set_from_index ind m.motor_temp dt.inverter_motor_temps_c;
          };
        };
      }

  unfoldable pub set_overload : ℕ → Float → Tracker → Tracker
  set_overload ind percentage t = record t {
    vehicle_state = record (t.vehicle_state) {
      motor_overload_percentages =
          set_from_index ind percentage t.vehicle_state.motor_overload_percentages;
    };
  }

  -- `_receive_inverter_states`
  unfoldable pub receive_inverter_states : Message n → Tracker → Tracker
  unfolding handle_set_inverter_dynamics set_inverter_temps set_overload set_from_index
  receive_inverter_states (inv1_dynamics m) t = handle_set_inverter_dynamics 0 m t
  receive_inverter_states (inv2_dynamics m) t = handle_set_inverter_dynamics 1 m t
  receive_inverter_states (inv3_dynamics m) t = handle_set_inverter_dynamics 2 m t
  receive_inverter_states (inv4_dynamics m) t = handle_set_inverter_dynamics 3 m t
  receive_inverter_states (inv1_temps m) t = set_inverter_temps 0 m t
  receive_inverter_states (inv2_temps m) t = set_inverter_temps 1 m t
  receive_inverter_states (inv3_temps m) t = set_inverter_temps 2 m t
  receive_inverter_states (inv4_temps m) t = set_inverter_temps 3 m t
  receive_inverter_states (inv1_overload p) t = set_overload 0 p t
  receive_inverter_states (inv2_overload p) t = set_overload 1 p t
  receive_inverter_states (inv3_overload p) t = set_overload 2 p t
  receive_inverter_states (inv4_overload p) t = set_overload 3 p t
  receive_inverter_states (inv1_status voltage) t = record t {
    vehicle_state = record (t.vehicle_state) {
      acc_data = record (t.vehicle_state.acc_data) { pack_voltage = voltage };
    };
  }
  receive_inverter_states _ t = t

  -- `_receive_low_level_state`
  unfoldable pub receive_low_level_state : ℕ → Message n → Tracker → Tracker
  unfolding receive_inverter_states
  receive_low_level_state now (rear_suspension m) t =
      let raw = record (t.raw_input_data) {
        raw_load_cell_values = record (t.raw_input_data.raw_load_cell_values) {
          rl = m.left_load_cell;
          rr = m.right_load_cell;
        };
        raw_shock_pot_values = record (t.raw_input_data.raw_shock_pot_values) {
          rl = m.left_shock_pot;
          rr = m.right_shock_pot;
        };
      } in
      record {
        timestamp_array = record (t.timestamp_array) { rear = now };
        raw_input_data = raw;
        vehicle_state = record (t.vehicle_state) {
          loadcells = raw.raw_load_cell_values;
          suspension_potentiometers_mm = raw.raw_shock_pot_values;
        };
      }
  receive_low_level_state now (front_suspension m) t =
      let raw = record (t.raw_input_data) {
        raw_load_cell_values = record (t.raw_input_data.raw_load_cell_values) {
          fl = m.left_load_cell;
          fr = m.right_load_cell;
        };
        raw_shock_pot_values = record (t.raw_input_data.raw_shock_pot_values) {
          fl = m.left_shock_pot;
          fr = m.right_shock_pot;
        };
      } in
      record {
        timestamp_array = record (t.timestamp_array) { front = now };
        raw_input_data = raw;
        vehicle_state = record (t.vehicle_state) {
          loadcells = raw.raw_load_cell_values;
          suspension_potentiometers_mm = raw.raw_shock_pot_values;
        };
      }
  receive_low_level_state now (pedals_system_data m) t = record t {
    timestamp_array = record (t.timestamp_array) { pedals = now };
    vehicle_state = record (t.vehicle_state) {
      input = record { requested_accel = m.accel_pedal; requested_brake = m.brake_pedal };
    };
  }
  receive_low_level_state now (steering_data m) t = record {
    timestamp_array = record (t.timestamp_array) { steering = now };
    raw_input_data = record (t.raw_input_data) {
      raw_steering_analog = m.steering_analog_raw;
      raw_steering_digital = m.steering_digital_raw;
    };
    vehicle_state = record (t.vehicle_state) { steering_angle_deg = m.steering_analog_raw };
  }
  receive_low_level_state now (em_measurement m) t = record t {
    vehicle_state = record (t.vehicle_state) {
      old_energy_meter_kw =
          div (mul (mul (neg (decimal 1 0)) m.em_voltage) m.em_current) (decimal 1000 0);
    };
  }
  receive_low_level_state now m t = receive_inverter_states m t

  -- `handle_receive_protobuf_message`
  unfoldable pub handle_receive_protobuf_message : ℕ → Message n → Tracker → Tracker
  unfolding receive_low_level_state
  handle_receive_protobuf_message now (vn_data m) t = record t {
    vehicle_state = record (t.vehicle_state) {
      current_body_vel_ms = m.vn_vel_m_s;
      current_body_accel_mss = m.vn_linear_accel_m_ss;
      current_angular_rate_rads = m.vn_angular_rate_rad_s;
      current_ypr_rad = m.vn_ypr_rad;
      ins_status = record { status_mode = m.ins_mode_int; vel_uncertainty = m.ins_vel_u };
    };
  }
  handle_receive_protobuf_message now (vcr_data_s is_rtd) t = record t {
    vehicle_state = record (t.vehicle_state) { is_ready_to_drive = is_rtd };
  }
  handle_receive_protobuf_message now (acu_all_data voltage) t = record t {
    vehicle_state = record (t.vehicle_state) {
      acc_data = record (t.vehicle_state.acc_data) { min_cell_voltage = voltage };
    };
  }
  handle_receive_protobuf_message now m t = receive_low_level_state now m t

  -- A message with the time at which it is handled.
  abbrev pub Event : Type 0
  Event = ℕ × Message n

  unfoldable pub receive_all : List Event → Tracker → Tracker
  receive_all [] t = t
  receive_all ((now, m) ∷ es) t = receive_all es (handle_receive_protobuf_message now m t)

  -- `get_latest_state_and_validity` copies the timestamps in one critical section, reads the clock,
  -- and copies the state in another: `between` are the messages that other threads handle there.
  unfoldable pub get_latest_state_and_validity :
      ℕ → List Event → Tracker → Tracker × (VehicleState n × Bool)
  get_latest_state_and_validity now between t =
      let is_valid = validate_timestamps now t.timestamp_array in
      let later = receive_all between t in
      let current_state = record (later.vehicle_state) { state_is_valid = is_valid } in
      (record later { vehicle_state = current_state }, (current_state, is_valid))
