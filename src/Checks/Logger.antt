-- ===== src/Checks/Logger.antt =====
-- Runs of the recorder.
use drivebrain_software.Base.{◌≡◌, refl, true, false, [], ◌∷◌, ◌++◌, some, insert}
use drivebrain_software.Logger.Defs.{
  RawMessage, Logger, absent, waiting, writing, construct, log_msg, open_named_mcap, init_logging,
  thread_step, start_on, thread_at, wake, log_params, add_channels,
}
use drivebrain_software.Logger.Steps.{Step, logs, runs, opens, starts, Reach, here, next}
use drivebrain_software.Logger.Conserve.{messages, logged_is_held}
use drivebrain_software.Logger.Restart.{IsDeaf, log_all, run_out, restarted-IsDeaf}

abbrev pub params_message : RawMessage
params_message = record {
  log_time = 1;
  serialized_data = "{}";
  message_name = "drivebrain_configuration";
}

abbrev pub speed_message : RawMessage
speed_message = record { log_time = 2; serialized_data = "speed"; message_name = "Speed" }

abbrev pub opened : Logger
opened = record {
  input_buffer = params_message ∷ [];
  write_buffer = [];
  written = [];
  name_to_id_map = ("Speed", 1) ∷ ("drivebrain_configuration", 2) ∷ [];
  log_name = "1.mcap";
  logging = false;
  running = true;
  thread = absent;
}

abbrev pub started : Logger
started = record opened { logging = true; thread = waiting }

abbrev recording : Logger
recording = record started { input_buffer = params_message ∷ speed_message ∷ [] }

-- The thread has taken both messages.
abbrev pub in_hand : Logger
in_hand = record recording {
  input_buffer = [];
  write_buffer = params_message ∷ speed_message ∷ [];
  thread = writing;
}

opens_first : Step construct (params_message ∷ []) opened
unfolding construct open_named_mcap log_params log_msg add_channels insert
opens_first = opens "1.mcap" (("Speed", 1) ∷ ("drivebrain_configuration", 2) ∷ []) 1 "{}"

starts_then : Step opened [] started
unfolding init_logging start_on
starts_then = starts refl

logs_then : Step started (speed_message ∷ []) recording
unfolding log_msg
logs_then = logs speed_message

wakes_then : Step recording [] in_hand
unfolding thread_step thread_at wake
wakes_then = runs refl

pub reaches : Reach construct (params_message ∷ speed_message ∷ []) in_hand
reaches =
    next (next (next (next here opens_first refl) starts_then refl) logs_then refl) wakes_then refl

logged_is_held_example :
    messages in_hand.written ++ (in_hand.write_buffer ++ in_hand.input_buffer)
    ≡ params_message ∷ speed_message ∷ []
logged_is_held_example = logged_is_held reaches

-- Stopped, joined, and opened again: the parameters wait in the buffer.
abbrev pub reopened : Logger
reopened = record opened { running = false }

starts_again : init_logging reopened ≡ some (record started { running = false })
unfolding init_logging start_on
starts_again = refl

restarted-IsDeaf_example :
    IsDeaf
      (log_all (speed_message ∷ speed_message ∷ []) (run_out (record started { running = false })))
restarted-IsDeaf_example =
    restarted-IsDeaf reopened (record started { running = false }) refl refl refl starts_again
      (speed_message ∷ speed_message ∷ [])

abbrev restarted : Logger
restarted = record started { running = false }

starts_deaf : Step reopened [] restarted
starts_deaf = starts starts_again
