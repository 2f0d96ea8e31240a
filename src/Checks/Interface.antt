-- ===== src/Checks/Interface.antt =====
-- A request that stops the recording and swaps the controller.
use drivebrain_software.Base.{◌≡◌, refl, true, false, [], ◌∷◌, none, some, lookup, inr}
use drivebrain_software.Base.Int.{pos}
use drivebrain_software.Floats.Micros.{micro_floats}
use drivebrain_software.Params.Db.{ParamMap, bool_param, int_param}
use drivebrain_software.LoadCell.Defs.{Config}
use drivebrain_software.Logger.Defs.{Logger}
use drivebrain_software.Logger.Names.{get_logfile_name, fallback}
use drivebrain_software.Manager.Defs.{Manager}
use drivebrain_software.Manager.Safety.{IsSafe}
use drivebrain_software.Interface.Defs.{Disk, handle_parameter_updates}
use drivebrain_software.Interface.Ready.{IsReady, handle_parameter_updates-IsReady}
use drivebrain_software.Checks.Samples.{coasting_state}
use drivebrain_software.Checks.Logger.{in_hand}
use drivebrain_software.Checks.Manager.{ops, manager, manager-IsSafe}

abbrev disk : Disk
disk = record {
  directory = none;
  spell = λ name. "2.mcap";
  opened = true;
  channels = [];
  now = 5;
  initial_params = "{}";
}

chosen : get_logfile_name disk.directory ≡ some fallback
unfolding get_logfile_name
chosen = refl

abbrev change : ParamMap micro_floats
change =
    ("drivebraincontrollerinterface/should_log", bool_param false)
    ∷ ("drivebraincontrollerinterface/controller_index", int_param (pos 1))
    ∷ []

has_log : lookup "drivebraincontrollerinterface/should_log" change ≡ some (bool_param false)
unfolding lookup
has_log = refl

has_index :
    lookup "drivebraincontrollerinterface/controller_index" change ≡ some (int_param (pos 1))
unfolding lookup
has_index = refl

handle_parameter_updates-IsReady_example :
    (l : Logger) × (m : Manager micro_floats (Config micro_floats)) × (handle_parameter_updates ops
        change disk coasting_state
        (in_hand, manager)
      ≡ some (l, m))
    × IsReady l
    × IsSafe ops m
handle_parameter_updates-IsReady_example =
    handle_parameter_updates-IsReady ops change disk coasting_state in_hand manager fallback chosen
      (bool_param false) (int_param (pos 1)) has_log has_index (inr (refl, tt, tt)) manager-IsSafe
