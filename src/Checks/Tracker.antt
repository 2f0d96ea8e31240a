-- ===== src/Checks/Tracker.antt =====
-- Runs of the state tracker.
use drivebrain_software.Base.{ℕ, ◌≡◌, ◌↔◌, refl, arith, true, List, [], ◌∷◌}
use drivebrain_software.Base.Int.{pos}
use drivebrain_software.Floats.Micros.{micro_floats}
use drivebrain_software.Tracker.Messages.{
  Message, rear_suspension, front_suspension, pedals_system_data, steering_data, inv3_dynamics,
}
use drivebrain_software.Tracker.Clock.{Stamps, validate_timestamps, sort, insert_sorted, back_of}
use drivebrain_software.Tracker.Defs.{construct, receive_all, handle_receive_protobuf_message}
use drivebrain_software.Tracker.Stamps.{IsCurrent, validate_timestamps_iff}
use drivebrain_software.Tracker.Fields.{IsLatest, receive_all-IsLatest}
use drivebrain_software.Tracker.Validity.{front_group, stamp, HeardAt, heard, valid-HeardAt}

abbrev pub stamps : Stamps
stamps = record { rear = 1_000_000; front = 1_000_100; pedals = 1_200_000; steering = 1_300_000 }

validate_timestamps_iff_example :
    (validate_timestamps 1_400_000 stamps ≡ true) ↔ IsCurrent 1_400_000 stamps
validate_timestamps_iff_example = validate_timestamps_iff 1_400_000 stamps

-- The four groups, the rear one twice, and an inverter.
abbrev pub messages : List (ℕ × Message micro_floats)
messages =
    (
      900_000,
      rear_suspension (record {
        left_load_cell = pos 1;
        right_load_cell = pos 2;
        left_shock_pot = pos 3;
        right_shock_pot = pos 4;
      }),
    )
    ∷ (
      1_000_000,
      front_suspension (record {
        left_load_cell = pos 5;
        right_load_cell = pos 6;
        left_shock_pot = pos 7;
        right_shock_pot = pos 8;
      }),
    )
    ∷ (
      1_000_500,
      inv3_dynamics
          (record { actual_torque_nm = pos 9; actual_power_w = pos 10; actual_speed_rpm = pos 11 }),
    )
    ∷ (1_001_000, pedals_system_data (record { accel_pedal = pos 12; brake_pedal = pos 13 }))
    ∷ (
      1_002_000,
      steering_data (record { steering_analog_raw = pos 14; steering_digital_raw = pos 15 }),
    )
    ∷ (
      1_003_000,
      rear_suspension (record {
        left_load_cell = pos 16;
        right_load_cell = pos 17;
        left_shock_pot = pos 18;
        right_shock_pot = pos 19;
      }),
    )
    ∷ []

receive_all-IsLatest_example :
    IsLatest messages
      (receive_all micro_floats messages (construct micro_floats stamps)).vehicle_state
receive_all-IsLatest_example = receive_all-IsLatest stamps messages

valid_now : validate_timestamps 1_004_000 (heard {n = micro_floats} messages).timestamp_array ≡ true
unfolding validate_timestamps sort insert_sorted back_of receive_all handle_receive_protobuf_message
    construct
valid_now = refl

valid-HeardAt_example :
    HeardAt front_group
      (stamp front_group (heard {n = micro_floats} messages).timestamp_array)
      messages
valid-HeardAt_example = valid-HeardAt front_group messages 1_004_000 valid_now

stamps-IsCurrent : IsCurrent 1_400_000 stamps
stamps-IsCurrent = record {
  received = ground arith;
  together = ground arith;
  recent = ground arith;
}
