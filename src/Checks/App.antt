-- ===== src/Checks/App.antt =====
-- Passes of the control loop.
use drivebrain_software.Base.{
  ◌≡◌, refl, String, List, [], ◌∷◌, ◌++◌, Option, some, Dict, ◌==◌, if◌then◌else◌,
}
use drivebrain_software.Floats.Micros.{micro_floats}
use drivebrain_software.Vehicle.{VehicleState, ControllerOutput}
use drivebrain_software.LoadCell.Defs.{Config}
use drivebrain_software.Tracker.Defs.{construct, receive_all}
use drivebrain_software.Manager.Safety.{IsSafe}
use drivebrain_software.App.Defs.{OutMessage, App, Pass, tick, loop}
use drivebrain_software.App.Safety.{Passed, tick-Passed}
use drivebrain_software.App.Bus.{Bus, send, HasSignals, loop-goes_on}
use drivebrain_software.Can.Defs.{Value, again, failed, wrote}
use drivebrain_software.Checks.Can.{Payload, frame}
use drivebrain_software.Checks.CanLink.{message, sent_fields}
use drivebrain_software.Checks.Sending.{with_message, sent_fields-HasFields}
use drivebrain_software.Checks.Manager.{ops, manager, manager-IsSafe}
use drivebrain_software.Checks.Tracker.{messages, stamps}

abbrev same_state : VehicleState micro_floats → VehicleState micro_floats
same_state s = s

-- The loop's messages are all sent as the message of the DBC file.
abbrev short_name : OutMessage micro_floats → String
short_name m = "torque_set"

abbrev fields : OutMessage micro_floats → Dict (Value micro_floats Payload)
fields m = sent_fields

messages-HasSignals : HasSignals (message ∷ []) frame short_name fields
messages-HasSignals m id dbc (named, there) =
    with_message sent_fields sent_fields-HasFields dbc id there

-- A bus on which the second write finds the queue full.
abbrev bus : Bus micro_floats Payload
bus = record {
  output = record { frames = []; counters = record { tx_drop_count = 0; tx_error_count = 0 } };
  outcome = λ k. if k == 1 then again else wrote 16;
  calls = 0;
}

abbrev app : App micro_floats (Bus micro_floats Payload) (Config micro_floats)
app = record {
  tracker = construct micro_floats stamps;
  manager = manager;
  telem_can = bus;
  aux_can = record bus { outcome = λ k. failed };
  logged = [];
  next_tick = 0;
}

abbrev first_pass : Pass micro_floats
first_pass = record { now = 1_400_000; between = messages; mcap_name = "1.mcap"; steady_now = 9000 }

abbrev late_pass : Pass micro_floats
late_pass = record first_pass { now = 9_000_000; between = [] }

-- A pass after all groups of sensors were heard, over buses that keep the messages.
abbrev heard_app : App micro_floats (List (OutMessage micro_floats)) (Config micro_floats)
heard_app = record {
  tracker = receive_all micro_floats messages (construct micro_floats stamps);
  manager = manager;
  telem_can = [];
  aux_can = [];
  logged = [];
  next_tick = 0;
}

abbrev keep :
    OutMessage micro_floats
    → List (OutMessage micro_floats)
    → Option (List (OutMessage micro_floats))
keep m kept = some (kept ++ (m ∷ []))

tick-Passed_example :
    (a : App micro_floats (List (OutMessage micro_floats)) (Config micro_floats))
    × (out : ControllerOutput micro_floats) × (tick ops same_state keep
          (record first_pass { now = 1_004_000; between = [] })
          heard_app
        ≡ some a)
    × Passed ops same_state keep
        (record first_pass { now = 1_004_000; between = [] })
        heard_app
        a
        out
tick-Passed_example =
    tick-Passed ops same_state keep (λ m kept. (kept ++ (m ∷ []), refl))
      (record first_pass { now = 1_004_000; between = [] }) heard_app manager-IsSafe

loop-goes_on_example :
    (a : App micro_floats (Bus micro_floats Payload) (Config micro_floats)) × (loop ops same_state
        (send (message ∷ []) frame short_name fields)
        (first_pass ∷ late_pass ∷ [])
        app
      ≡ some a)
    × IsSafe ops a.manager
    × (a.telem_can.output.frames ≡ a.aux_can.output.frames)
loop-goes_on_example =
    loop-goes_on (message ∷ []) frame short_name fields ops same_state messages-HasSignals
      (first_pass ∷ late_pass ∷ []) app manager-IsSafe refl
