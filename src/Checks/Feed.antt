-- ===== src/Checks/Feed.antt =====
-- Frames on the bus while the recording is on.
use drivebrain_software.Base.{ℕ, ◌+◌, ◌*◌, String, true, [], ◌∷◌}
use drivebrain_software.Base.Int.{pos}
use drivebrain_software.Floats.Micros.{micro_floats}
use drivebrain_software.Tracker.Messages.{Message, pedals_system_data, vcr_data_s}
use drivebrain_software.Tracker.Defs.{construct}
use drivebrain_software.Can.Defs.{ProtoMessage}
use drivebrain_software.Feed.Defs.{Times, System}
use drivebrain_software.Checks.Can.{Payload}
use drivebrain_software.Checks.Logger.{in_hand}
use drivebrain_software.Checks.Tracker.{stamps}

abbrev Decoded : Type 0
Decoded = ProtoMessage micro_floats Payload

abbrev name : Decoded → String
name m = m.type_name

-- Every message is taken for one of the pedals, pressed half.
abbrev fields : Decoded → Message micro_floats
fields m = pedals_system_data (record { accel_pedal = pos 500_000; brake_pedal = pos 0 })

abbrev bytes : Decoded → String
bytes m = "bytes"

abbrev clock : ℕ → Times
clock k = record { logged = 1000 * k; sent = 1000 * k + 1; heard = 1000 * k + 2 }

abbrev Fed : Type 0
Fed = System micro_floats name bytes fields clock

abbrev before : Fed
before = record {
  logger = in_hand;
  name_to_id_map = ("hytech.torque_set", 4) ∷ [];
  broadcasts = [];
  tracker = construct micro_floats stamps;
  taken = 0;
}

abbrev tag : String → String
tag body = "VCRData_s"

abbrev itself : String → String
itself body = body

abbrev ready : String → Message micro_floats
ready body = vcr_data_s true

abbrev simulated : System micro_floats tag itself ready clock
simulated = record {
  logger = in_hand;
  name_to_id_map = ("VCRData_s", 5) ∷ [];
  broadcasts = [];
  tracker = construct micro_floats stamps;
  taken = 0;
}
