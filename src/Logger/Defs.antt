-- ===== src/Logger/Defs.antt =====
-- The class `MCAPLogger`. The MCAP writer is a library: what is written to it is kept as a list.
use drivebrain_software.Base.{
  ℕ, Bool, true, false, String, List, [], ◌∷◌, ◌++◌, Option, none, some, Dict, lookup, insert,
  if◌then◌else◌,
}
use drivebrain_software.Base.Int.{ℤ, pos, negsuc}

-- `RawMessage_s`
pub record RawMessage : Type 0 where
  pub serialized_data : String
  pub message_name : String
  pub log_time : ℕ

-- Where the thread that runs `_handle_log_to_file` stands: not started or joined, before the wait,
-- in the loop over `write_buffer`, or returned and not yet joined.
pub data Thread : Type 0 where
  absent : Thread
  waiting : Thread
  writing : Thread
  finished : Thread

pub record Logger : Type 0 where
  pub input_buffer : List RawMessage
  pub write_buffer : List RawMessage
  -- The messages given to `_writer.write`, each with its channel id.
  pub written : List (ℕ × RawMessage)
  pub name_to_id_map : Dict ℕ
  pub log_name : String
  pub logging : Bool
  pub running : Bool
  pub thread : Thread

-- The constructor's state.
unfoldable pub construct : Logger
construct = record {
  input_buffer = [];
  write_buffer = [];
  written = [];
  name_to_id_map = [];
  log_name = "NONE";
  logging = false;
  running = true;
  thread = absent;
}

-- `status`
unfoldable pub status : Logger → String × Bool
status s = (s.log_name, s.logging)

-- The critical section of `log_msg` and `log_params`.
unfoldable pub log_msg : RawMessage → Logger → Logger
log_msg m s = record s { input_buffer = s.input_buffer ++ (m ∷ []) }

-- `log_params` takes the time and the text of the parameters.
unfoldable pub log_params : ℕ → String → Logger → Logger
unfolding log_msg
log_params now params s =
    log_msg
      (record {
        log_time = now;
        serialized_data = params;
        message_name = "drivebrain_configuration";
      })
      s

-- `_name_to_id_map[message_name]`: 0 for a name that no channel was made for.
unfoldable pub channel_id : Dict ℕ → String → ℕ
channel_id ids name = elim (lookup name ids) [ none ↦ 0 | some i ↦ i ]

unfoldable pub add_channels : List (String × ℕ) → Dict ℕ → Dict ℕ
add_channels [] ids = ids
add_channels ((name, i) ∷ rest) ids = add_channels rest (insert name i ids)

-- `open_new_mcap` from the name on: `file_name` is the path that was chosen, `opened` whether the
-- writer could open the file, `channels` the ids that it gave to the message types and the
-- configuration. The result is 0 or -1. The whole is in Logger.Opening.
unfoldable pub open_named_mcap :
    String → Bool → List (String × ℕ) → ℕ → String → Logger → Logger × ℤ
unfolding log_params add_channels
open_named_mcap file_name opened channels now initial_params s =
    let named = record s { log_name = file_name } in
    if opened
    then (
      log_params now initial_params
          (record named { name_to_id_map = add_channels channels s.name_to_id_map }),
      pos 0,
    )
    else (named, negsuc 0)

-- `close_active_mcap`
unfoldable pub close_active_mcap : Logger → Logger × ℤ
close_active_mcap s = (record s { log_name = "NONE" }, pos 0)

-- `init_logging`. To assign to a `std::thread` that has not been joined ends the program: `none`.
unfoldable pub start_on : Thread → Logger → Option Logger
start_on absent s = some (record s { thread = waiting; logging = true })
start_on waiting s = none
start_on writing s = none
start_on finished s = none

unfoldable pub init_logging : Logger → Option Logger
unfolding start_on
init_logging s = start_on s.thread s

-- The critical section of `stop_logging`; the call then joins the thread.
unfoldable pub stop_logging : Logger → Logger
stop_logging s = record s { running = false; logging = false }

-- The join: it returns once the thread has returned, at once if there is none.
unfoldable pub join_on : Thread → Logger → Option Logger
join_on absent s = some s
join_on waiting s = none
join_on writing s = none
join_on finished s = some (record s { thread = absent })

unfoldable pub join : Logger → Option Logger
unfolding join_on
join s = join_on s.thread s

-- A step of `_handle_log_to_file`: `none` while it waits, and when it has returned. The move out of
-- `_input_buffer` leaves it empty.
unfoldable pub wake : List RawMessage → Bool → Logger → Option Logger
wake [] true s = none
wake [] false s = some (record s { thread = finished })
wake (m ∷ ms) running s =
    some (record s { write_buffer = m ∷ ms; input_buffer = []; thread = writing })

unfoldable pub write_next : List RawMessage → Logger → Option Logger
write_next [] s = some (record s { thread = waiting })
write_next (m ∷ ms) s = some (record s {
  written = s.written ++ ((channel_id s.name_to_id_map m.message_name, m) ∷ []);
  write_buffer = ms;
})

unfoldable pub thread_at : Thread → Logger → Option Logger
unfolding wake write_next
thread_at absent s = none
thread_at waiting s = wake s.input_buffer s.running s
thread_at writing s = write_next s.write_buffer s
thread_at finished s = none

unfoldable pub thread_step : Logger → Option Logger
unfolding thread_at
thread_step s = thread_at s.thread s
