-- ===== src/Interface/Defs.antt =====
-- The class `DrivebrainControllerInterface`, over the recorder and the controller manager that it
-- calls. `none` is the end of the program: an exception that leaves a callback, a null pointer, a
-- running thread that is assigned to.
use drivebrain_software.Base.{
  ℕ, ◌+◌, Bool, String, List, Option, none, some, length, ◌==◌, if◌then◌else◌, lookup,
}
use drivebrain_software.Base.Int.{ℤ, pos, negsuc}
use drivebrain_software.Floats.{Floats}
use drivebrain_software.Vehicle.{VehicleState}
use drivebrain_software.Params.Db.{ParamMap, DbParam, get_if_bool, get_if_int}
use drivebrain_software.Logger.Defs.{
  Logger, status, close_active_mcap, init_logging, stop_logging, join,
}
use drivebrain_software.Logger.Names.{Entry}
use drivebrain_software.Logger.Opening.{open_new_mcap}
use drivebrain_software.Logger.Drain.{run_thread}
use drivebrain_software.Manager.Defs.{Manager, ControllerOps, swap_active_controller}

-- What `open_new_mcap` finds: the arguments of `Logger.Opening.open_new_mcap`.
pub record Disk : Type 0 where
  pub directory : Option (List Entry)
  pub spell : List ℕ → String
  pub opened : Bool
  pub channels : List (String × ℕ)
  pub now : ℕ
  pub initial_params : String

-- `_request_start_logging`. The result of `open_new_mcap` is not looked at; its exception leaves.
unfoldable pub request_start_logging : Disk → Logger → Option Logger
unfolding open_new_mcap
request_start_logging d l =
    if (status l).1
    then some l
    else elim (open_new_mcap d.directory d.spell d.opened d.channels d.now d.initial_params l) [
      | none ↦ none
      | some r ↦ init_logging r.0
    ]

-- `stop_logging` up to its end: the thread runs while the caller waits in the join.
unfoldable pub stop_and_join : Logger → Option Logger
stop_and_join l =
    join (run_thread (length l.write_buffer + length l.input_buffer + 4) (stop_logging l))

-- `_request_stop_logging`
unfoldable pub request_stop_logging : Logger → Option Logger
unfolding stop_and_join
request_stop_logging l =
    if (status l).1
    then elim (stop_and_join l) [ none ↦ none | some l' ↦ some (close_active_mcap l').0 ]
    else some l

module _ {n : Floats} where
  -- The first `if` of `_handle_parameter_updates`: `at` throws for a missing name.
  unfoldable pub handle_should_log : Disk → Option (DbParam n) → Logger → Option Logger
  handle_should_log d none l = none
  handle_should_log d (some p) l = elim (get_if_bool n p) [
    | none ↦ some l
    | some should_log ↦ if should_log then request_start_logging d l else request_stop_logging l
  ]

module _ {n : Floats} {C : Type 0} (ops : ControllerOps n C) where
  -- `_request_controller_change`; the state is what the tracker gives. A refused swap is only
  -- reported.
  unfoldable pub request_controller_change : ℤ → VehicleState n → Manager n C → Option (Manager n C)
  request_controller_change (negsuc i) input m = some m
  request_controller_change (pos i) input m =
      if i == m.current_controller_index
      then some m
      else elim (swap_active_controller ops i input m) [ none ↦ none | some r ↦ some r.0 ]

  -- The second `if`.
  unfoldable pub handle_controller_index :
      VehicleState n → Option (DbParam n) → Manager n C → Option (Manager n C)
  unfolding request_controller_change
  handle_controller_index input none m = none
  handle_controller_index input (some p) m = elim (get_if_int n p) [
    | none ↦ some m
    | some i ↦ request_controller_change i input m
  ]

  -- `_handle_parameter_updates`
  unfoldable pub handle_parameter_updates :
      ParamMap n → Disk → VehicleState n → Logger × Manager n C → Option (Logger × Manager n C)
  unfolding handle_should_log handle_controller_index
  handle_parameter_updates params d input (l, m) =
      elim (handle_should_log d (lookup "drivebraincontrollerinterface/should_log" params) l) [
        | none ↦ none
        | some l' ↦
            elim (handle_controller_index input
              (lookup "drivebraincontrollerinterface/controller_index" params) m) [
                | none ↦ none
                | some m' ↦ some (l', m')
              ]
      ]
