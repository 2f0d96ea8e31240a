-- ===== src/Tracker/Messages.antt =====
-- The protobuf messages that `StateTracker` knows, with the fields that it reads. The message
-- classes are generated from descriptions outside the repository; a field is taken at the type that
-- it is stored with.
use drivebrain_software.Base.{Bool}
use drivebrain_software.Base.Int.{ℤ}
use drivebrain_software.Floats.{Floats}
use drivebrain_software.Vehicle.{XyzVec, YprVec}

module _ (n : Floats) where
  open n use {Float}

  -- `hytech_msgs::VNData`
  pub record VnData : Type 0 where
    pub vn_vel_m_s : XyzVec Float
    pub vn_linear_accel_m_ss : XyzVec Float
    pub vn_angular_rate_rad_s : XyzVec Float
    pub vn_ypr_rad : YprVec Float
    pub ins_mode_int : ℤ
    pub ins_vel_u : Float

  -- `hytech::rear_suspension` and `hytech::front_suspension`, left and right
  pub record Suspension : Type 0 where
    pub left_load_cell : Float
    pub right_load_cell : Float
    pub left_shock_pot : Float
    pub right_shock_pot : Float

  pub record PedalsSystemData : Type 0 where
    pub accel_pedal : Float
    pub brake_pedal : Float

  pub record SteeringData : Type 0 where
    pub steering_analog_raw : Float
    pub steering_digital_raw : Float

  pub record EmMeasurement : Type 0 where
    pub em_voltage : Float
    pub em_current : Float

  -- `hytech::inv1_dynamics` to `hytech::inv4_dynamics`
  pub record InvDynamics : Type 0 where
    pub actual_torque_nm : Float
    pub actual_power_w : Float
    pub actual_speed_rpm : Float

  -- `hytech::inv1_temps` to `hytech::inv4_temps`
  pub record InvTemps : Type 0 where
    pub igbt_temp : Float
    pub inverter_temp : Float
    pub motor_temp : Float

  -- A message by its descriptor. `vcr_data_s` says whether the vehicle is in `READY_TO_DRIVE`;
  -- `other_message` is any other descriptor.
  pub data Message : Type 0 where
    vn_data : VnData → Message
    vcr_data_s : (ready_to_drive : Bool) → Message
    acu_all_data : (min_cell_voltage : Float) → Message
    rear_suspension : Suspension → Message
    front_suspension : Suspension → Message
    pedals_system_data : PedalsSystemData → Message
    steering_data : SteeringData → Message
    em_measurement : EmMeasurement → Message
    inv1_dynamics : InvDynamics → Message
    inv2_dynamics : InvDynamics → Message
    inv3_dynamics : InvDynamics → Message
    inv4_dynamics : InvDynamics → Message
    inv1_temps : InvTemps → Message
    inv2_temps : InvTemps → Message
    inv3_temps : InvTemps → Message
    inv4_temps : InvTemps → Message
    inv1_overload : (motor_overload_percentage : Float) → Message
    inv2_overload : (motor_overload_percentage : Float) → Message
    inv3_overload : (motor_overload_percentage : Float) → Message
    inv4_overload : (motor_overload_percentage : Float) → Message
    inv1_status : (dc_bus_voltage : Float) → Message
    other_message : Message
