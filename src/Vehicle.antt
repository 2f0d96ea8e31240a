-- ===== src/Vehicle.antt =====
-- drivebrain_core/include/StateTracker.hpp: the plain data that the components exchange.
-- A C++ `{}` initialiser is written out: zero for every number, `false`, the first alternative of a
-- variant.
use drivebrain_software.Base.{ℕ, Bool, false, ◌==◌, if◌then◌else◌}
use drivebrain_software.Base.Int.{ℤ, pos}
use drivebrain_software.Floats.{Floats, nought}

-- `veh_vec<T>`: a value for each wheel.
pub record VehVec {ℓ} (A : Type ℓ) : Type ℓ where
  pub fl : A
  pub fr : A
  pub rl : A
  pub rr : A

module _ {ℓ} {A : Type ℓ} where
  -- The template `set_from_index<ind>`; its static assertion admits the indices 0 to 3.
  unfoldable pub set_from_index : ℕ → A → VehVec A → VehVec A
  set_from_index ind v w =
      if ind == 0
      then record w { fl = v }
      else if ind == 1
      then record w { fr = v }
      else if ind == 2
      then record w { rl = v }
      else record w { rr = v }

  unfoldable pub get_from_index : ℕ → VehVec A → A
  get_from_index ind w =
      if ind == 0 then w.fl else if ind == 1 then w.fr else if ind == 2 then w.rl else w.rr

  abbrev pub all_wheels : A → VehVec A
  all_wheels v = record { fl = v; fr = v; rl = v; rr = v }

pub record XyzVec {ℓ} (A : Type ℓ) : Type ℓ where
  pub x : A
  pub y : A
  pub z : A

pub record YprVec {ℓ} (A : Type ℓ) : Type ℓ where
  pub yaw : A
  pub pitch : A
  pub roll : A

-- `ControllerManagerStatus`, with the source's names.
pub data ControllerManagerStatus : Type 0 where
  no_error : ControllerManagerStatus
  error_controller_index_out_of_range : ControllerManagerStatus
  error_speed_too_high : ControllerManagerStatus
  error_torque_too_high : ControllerManagerStatus
  error_driver_on_pedal : ControllerManagerStatus
  error_controller_no_torque_or_speed_output : ControllerManagerStatus
  error_output_exceeds_phys_limits : ControllerManagerStatus
  error_requesting_same_ctr_type : ControllerManagerStatus
  num_controller_manager_statuses : ControllerManagerStatus
  error_nullptr_controller : ControllerManagerStatus

module _ (n : Floats) where
  open n use {Float, Double, float, double}

  pub record RawInputData : Type 0 where
    pub raw_load_cell_values : VehVec Float
    pub raw_shock_pot_values : VehVec Float
    pub raw_steering_analog : Float
    pub raw_steering_digital : Float
    pub raw_inverter_torques : VehVec Float
    pub raw_inverter_power : VehVec Float

  pub record Position : Type 0 where
    pub lat : Double
    pub lon : Double
    pub valid : Bool

  pub record DriverInput : Type 0 where
    pub requested_accel : Float
    pub requested_brake : Float

  pub record ControllerTorqueOut : Type 0 where
    pub res_torque_lim_nm : VehVec Float

  pub record TireDynamics : Type 0 where
    pub tire_forces_n : VehVec (XyzVec Float)
    pub tire_moments_nm : VehVec (XyzVec Float)
    pub accel_saturation_nm : VehVec Float
    pub brake_saturation_nm : VehVec Float
    pub v_y_lm : Float
    pub psi_dot_lm_rad_s : Float

  pub record SpeedControlOut : Type 0 where
    pub mcu_recv_millis : ℤ
    pub desired_rpms : VehVec Float
    pub torque_lim_nm : VehVec Float

  pub record TorqueControlOut : Type 0 where
    pub desired_torques_nm : VehVec Float

  -- The variant of `ControllerOutput`, `std::monostate` last.
  pub data ControllerOutput : Type 0 where
    speed_control : SpeedControlOut → ControllerOutput
    torque_control : TorqueControlOut → ControllerOutput
    monostate : ControllerOutput

  pub record InsStatus : Type 0 where
    pub vel_uncertainty : Float
    pub status_mode : ℤ

  pub record DrivetrainData : Type 0 where
    pub inverter_igbt_temps_c : VehVec Float
    pub inverter_temps_c : VehVec Float
    pub inverter_motor_temps_c : VehVec Float

  pub record AccumulatorData : Type 0 where
    pub min_cell_voltage : Float
    pub pack_voltage : Float

  pub record VehicleState : Type 0 where
    pub is_ready_to_drive : Bool
    pub input : DriverInput
    pub current_body_vel_ms : XyzVec Float
    pub current_body_accel_mss : XyzVec Float
    pub current_angular_rate_rads : XyzVec Float
    pub current_ypr_rad : YprVec Float
    pub current_rpms : VehVec Float
    pub motor_overload_percentages : VehVec Float
    pub state_is_valid : Bool
    pub prev_mcu_recv_millis : ℤ
    pub steering_angle_deg : Float
    pub prev_controller_output : ControllerOutput
    pub tire_dynamics : TireDynamics
    pub driver_torque : VehVec Float
    pub matlab_math_temp_out : ControllerTorqueOut
    pub suspension_potentiometers_mm : VehVec Float
    pub vehicle_position : Position
    pub loadcells : VehVec Float
    pub current_torques_nm : VehVec Float
    pub ins_status : InsStatus
    pub old_energy_meter_kw : Float
    pub dt_data : DrivetrainData
    pub acc_data : AccumulatorData

  pub record ControllerManagerState : Type 0 where
    pub current_status : ControllerManagerStatus
    pub current_controller_output : ControllerOutput

  abbrev zeros : VehVec Float
  zeros = all_wheels (nought float)

  abbrev zero_xyz : XyzVec Float
  zero_xyz = record { x = nought float; y = nought float; z = nought float }

  abbrev pub zero_speed_control : SpeedControlOut
  zero_speed_control = record {
    mcu_recv_millis = pos 0;
    desired_rpms = zeros;
    torque_lim_nm = zeros;
  }

  -- `RawInputData _raw_input_data = { }`
  abbrev pub zero_raw_input : RawInputData
  zero_raw_input = record {
    raw_load_cell_values = zeros;
    raw_shock_pot_values = zeros;
    raw_steering_analog = nought float;
    raw_steering_digital = nought float;
    raw_inverter_torques = zeros;
    raw_inverter_power = zeros;
  }

  -- The constructor of `TireDynamics`.
  abbrev zero_tire_dynamics : TireDynamics
  zero_tire_dynamics = record {
    tire_forces_n = all_wheels zero_xyz;
    tire_moments_nm = all_wheels zero_xyz;
    accel_saturation_nm = zeros;
    brake_saturation_nm = zeros;
    v_y_lm = nought float;
    psi_dot_lm_rad_s = nought float;
  }

  -- `VehicleState _vehicle_state = { }`
  abbrev pub zero_vehicle_state : VehicleState
  zero_vehicle_state = record {
    is_ready_to_drive = false;
    input = record { requested_accel = nought float; requested_brake = nought float };
    current_body_vel_ms = zero_xyz;
    current_body_accel_mss = zero_xyz;
    current_angular_rate_rads = zero_xyz;
    current_ypr_rad = record { yaw = nought float; pitch = nought float; roll = nought float };
    current_rpms = zeros;
    motor_overload_percentages = zeros;
    state_is_valid = false;
    prev_mcu_recv_millis = pos 0;
    steering_angle_deg = nought float;
    prev_controller_output = speed_control zero_speed_control;
    tire_dynamics = zero_tire_dynamics;
    driver_torque = zeros;
    matlab_math_temp_out = record { res_torque_lim_nm = zeros };
    suspension_potentiometers_mm = zeros;
    vehicle_position = record { lat = nought double; lon = nought double; valid = false };
    loadcells = zeros;
    current_torques_nm = zeros;
    ins_status = record { vel_uncertainty = nought float; status_mode = pos 0 };
    old_energy_meter_kw = nought float;
    dt_data = record {
      inverter_igbt_temps_c = zeros;
      inverter_temps_c = zeros;
      inverter_motor_temps_c = zeros;
    };
    acc_data = record { min_cell_voltage = nought float; pack_voltage = nought float };
  }
