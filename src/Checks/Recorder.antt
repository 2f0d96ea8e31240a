-- ===== src/Checks/Recorder.antt =====
-- A run of the recorder in small steps.
use drivebrain_software.Base.{refl, false, [], ◌∷◌, insert, lookup}
use drivebrain_software.Logger.Defs.{
  writing, construct, log_msg, open_named_mcap, init_logging, stop_logging, thread_step, channel_id,
  start_on, thread_at, wake, write_next, log_params, add_channels,
}
use drivebrain_software.Logger.Wait.{
  Recorder, new_recorder, testing, parking, parked, idle, stopping, joining, locked, locked_notify,
  woken, after_test, wait_step, moved_on, log_step, log_step_at, begin_stop, advance, advance_at,
  Move, Moves, opens, starts, stops, advances, runs, here, next,
}
use drivebrain_software.Logger.Notify.{HasReturned, run_log, stop_logging-Returns}
use drivebrain_software.Checks.Logger.{params_message, opened, started}

-- Started, and asleep with the parameters written.
abbrev asleep : Recorder
asleep = record {
  logger = record started { input_buffer = []; written = (2, params_message) ∷ [] };
  wait = parked;
  caller = idle;
}

abbrev told : Recorder
told = record {
  logger = record (asleep.logger) { running = false; logging = false };
  wait = testing;
  caller = joining;
}

abbrev at_start : Recorder
at_start = record { logger = opened; wait = testing; caller = idle }

abbrev begun : Recorder
begun = record { logger = started; wait = testing; caller = idle }

opens_first : Move new_recorder (params_message ∷ []) at_start
unfolding construct open_named_mcap log_params log_msg add_channels insert locked_notify woken
opens_first = opens "1.mcap" (("Speed", 1) ∷ ("drivebrain_configuration", 2) ∷ []) 1 "{}" refl refl

starts_then : Move at_start [] begun
unfolding init_logging start_on
starts_then = starts refl refl

abbrev in_hand : Recorder
in_hand = record begun {
  logger = record started {
    input_buffer = [];
    write_buffer = params_message ∷ [];
    thread = writing;
  };
}

abbrev written_out : Recorder
written_out = record begun {
  logger = record started {
    input_buffer = [];
    written = (2, params_message) ∷ [];
    thread = writing;
  };
}

begins : Moves new_recorder (params_message ∷ []) begun
begins = next (next here opens_first refl) starts_then refl

sleeps : Moves new_recorder (params_message ∷ []) asleep
unfolding log_step log_step_at wait_step after_test moved_on thread_step thread_at wake write_next
    channel_id lookup
sleeps =
    next
      (next
        (next (next (next begins (runs {t = in_hand} refl) refl) (runs {t = written_out} refl) refl)
          (runs {t = record asleep { wait = testing }} refl) refl)
        (runs {t = record asleep { wait = parking }} refl) refl)
      (runs refl) refl

notified : Moves new_recorder (params_message ∷ []) told
unfolding begin_stop locked stop_logging advance advance_at woken
notified =
    next (next sleeps (stops {t = record told { wait = parked; caller = stopping }} refl refl) refl)
      (advances refl) refl

stop_logging-Returns_example : HasReturned (params_message ∷ []) (run_log 4 told)
stop_logging-Returns_example = stop_logging-Returns notified refl tt
