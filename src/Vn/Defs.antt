-- ===== src/Vn/Defs.antt =====
-- The class `VNDriver`. A packet's fields are what the sensor library extracts from it.
use drivebrain_software.Base.{
  ℕ, ◌/◌, ◌%◌, ◌^◌, Bool, true, String, Option, none, some, ◌==◌, if◌then◌else◌,
}
use drivebrain_software.Base.Int.{ℤ, pos}
use drivebrain_software.Floats.{Floats}
use drivebrain_software.Vehicle.{XyzVec}
use drivebrain_software.Params.Db.{ParamMap, get_param, get_if_int, get_if_string}
use drivebrain_software.Tracker.Messages.{VnData}

-- `hytech_msgs::vn_status` without the velocity uncertainty: the bits of the INS status word.
pub record InsBits : Type 0 where
  pub ins_mode : ℕ
  pub gnss_fix : ℕ
  pub error_imu : ℕ
  pub error_mag_pres : ℕ
  pub error_gnss : ℕ
  pub gnss_heading_ins : ℕ
  pub gnss_compass : ℕ

-- `(ins_status >> k) & 0b1`
abbrev bit : ℕ → ℕ → ℕ
bit ins_status k = ins_status / 2 ^ k % 2

unfoldable pub ins_bits : ℕ → InsBits
ins_bits ins_status = record {
  ins_mode = ins_status % 4;
  gnss_fix = bit ins_status 2;
  error_imu = bit ins_status 4;
  error_mag_pres = bit ins_status 5;
  error_gnss = bit ins_status 6;
  gnss_heading_ins = bit ins_status 8;
  gnss_compass = bit ins_status 9;
}

module _ (n : Floats) where
  open n use {Float, Double, float}

  pub record Packet : Type 0 where
    pub is_binary : Bool
    pub is_compatible : Bool
    pub ypr_data : XyzVec Float
    pub angular_rate_data : XyzVec Float
    pub uncomp_accel : XyzVec Float
    pub linear_accel_body : XyzVec Float
    pub ins_status : ℕ
    pub pos_lla : XyzVec Double
    pub vel_body : XyzVec Float
    pub vel_uncertainty : Float

  -- The whole `hytech_msgs::VNData` that the driver fills in: the part that the tracker reads, and
  -- the rest. `ins_mode_int` of the first part and `ins_mode` of the bits are the same two bits.
  pub record VnMessage : Type 0 where
    pub read_by_tracker : VnData n
    pub vn_linear_accel_uncomp_m_ss : XyzVec Float
    pub vn_gps_lat : Double
    pub vn_gps_lon : Double
    pub status : InsBits

  unfoldable pub message_of : Packet → VnMessage
  unfolding ins_bits
  message_of p = record {
    read_by_tracker = record {
      vn_vel_m_s = p.vel_body;
      vn_linear_accel_m_ss = p.linear_accel_body;
      vn_angular_rate_rad_s = p.angular_rate_data;
      vn_ypr_rad = record { yaw = p.ypr_data.x; pitch = p.ypr_data.y; roll = p.ypr_data.z };
      ins_mode_int = pos (p.ins_status % 4);
      ins_vel_u = p.vel_uncertainty;
    };
    vn_linear_accel_uncomp_m_ss = p.uncomp_accel;
    vn_gps_lat = p.pos_lla.x;
    vn_gps_lon = p.pos_lla.y;
    status = ins_bits p.ins_status;
  }

  -- `_handle_recieve`: the message that is logged and given to the tracker, if any.
  unfoldable pub handle_recieve : Packet → Option VnMessage
  unfolding message_of
  handle_recieve p =
      if p.is_binary then if p.is_compatible then some (message_of p) else none else none

  -- The members that `_try_initialize_heading` uses.
  pub record Heading : Type 0 where
    pub initial_heading_set : Bool
    pub local_declination : Float

  -- `_try_initialize_heading`, with the heading that it sends to the sensor.
  unfoldable pub try_initialize_heading : Float → ℕ → Heading → Heading × Option Float
  try_initialize_heading mag_heading ins_mode h =
      if h.initial_heading_set
      then (h, none)
      else if ins_mode == 0
      then (
        record h { initial_heading_set = true },
        some (float.add mag_heading h.local_declination),
      )
      else (h, none)

  pub record VnConfig : Type 0 where
    pub baud_rate : ℤ
    pub freq_divisor : ℤ

  all_four : Option String → Option ℤ → Option ℤ → Option ℤ → Option (String × VnConfig)
  all_four (some device) (some baud) (some divisor) (some port) =
      some (device, record { baud_rate = baud; freq_divisor = divisor })
  all_four _ _ _ _ = none

  -- The first half of `init`: the device to open, if all four parameters are there.
  unfoldable pub load_config : ParamMap n → Option (String × VnConfig)
  unfolding all_four
  load_config params =
      all_four (get_param n (get_if_string n) params "vn_driver/device_name")
        (get_param n (get_if_int n) params "vn_driver/baud_rate")
        (get_param n (get_if_int n) params "vn_driver/freq_divisor")
        (get_param n (get_if_int n) params "vn_driver/port")
