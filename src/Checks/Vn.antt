-- ===== src/Checks/Vn.antt =====
-- A packet of the inertial sensor.
use drivebrain_software.Base.{◌&&◌, arith, true, false}
use drivebrain_software.Base.Int.{pos}
use drivebrain_software.Floats.Micros.{micro_floats}
use drivebrain_software.Tracker.Defs.{construct}
use drivebrain_software.Vn.Defs.{InsBits, Packet, Heading}
use drivebrain_software.Vn.Status.{IsBits, receive_packet, Received, receive_packet-Received}
use drivebrain_software.Checks.Tracker.{stamps}

abbrev bits : InsBits
bits = record {
  ins_mode = 2;
  gnss_fix = 1;
  error_imu = 0;
  error_mag_pres = 1;
  error_gnss = 0;
  gnss_heading_ins = 1;
  gnss_compass = 0;
}

bits-IsBits : IsBits bits
bits-IsBits = record {
  ins_mode_ok = omega arith;
  gnss_fix_ok = omega arith;
  error_imu_ok = omega arith;
  error_mag_pres_ok = omega arith;
  error_gnss_ok = omega arith;
  gnss_heading_ins_ok = omega arith;
  gnss_compass_ok = omega arith;
}

abbrev heading : Heading micro_floats
heading = record { initial_heading_set = false; local_declination = pos 3_000_000 }

abbrev packet : Packet micro_floats
packet = record {
  is_binary = true;
  is_compatible = true;
  ypr_data = record { x = pos 1; y = pos 2; z = pos 3 };
  angular_rate_data = record { x = pos 4; y = pos 5; z = pos 6 };
  uncomp_accel = record { x = pos 7; y = pos 8; z = pos 9 };
  linear_accel_body = record { x = pos 10; y = pos 11; z = pos 12 };
  ins_status = 6;
  pos_lla = record { x = pos 13; y = pos 14; z = pos 15 };
  vel_body = record { x = pos 16; y = pos 17; z = pos 18 };
  vel_uncertainty = pos 19;
}

receive_packet-Received_example :
    Received micro_floats
      (packet.is_binary && packet.is_compatible)
      packet
      (construct micro_floats stamps)
      (receive_packet micro_floats 7 packet (construct micro_floats stamps))
receive_packet-Received_example =
    receive_packet-Received micro_floats 7 packet (construct micro_floats stamps)
