-- ===== src/Logger/Steps.antt =====
-- The logger among the threads that use it: messages are logged, the log thread runs, and one
-- thread starts and stops the recording, in any order.
use drivebrain_software.Base.{ℕ, ◌≡◌, Bool, String, List, [], ◌∷◌, ◌++◌, some}
use drivebrain_software.Logger.Defs.{
  RawMessage, Logger, log_msg, open_named_mcap, close_active_mcap, init_logging, stop_logging, join,
  thread_step,
}

-- One atomic step, with the messages that it adds to the buffer.
pub data Step (s : Logger) : List RawMessage → Logger → Type 0 where
  logs : (m : RawMessage) → Step s (m ∷ []) (log_msg m s)
  runs : {t : Logger} → thread_step s ≡ some t → Step s [] t
  fails_to_open :
      (file_name : String) (channels : List (String × ℕ)) (now : ℕ) (params : String)
      → Step s [] (open_named_mcap file_name Bool.false channels now params s).0
  opens :
      (file_name : String) (channels : List (String × ℕ)) (now : ℕ) (params : String)
      → Step s
          (record {
            log_time = now;
            serialized_data = params;
            message_name = "drivebrain_configuration";
          }
            ∷ [])
          (open_named_mcap file_name Bool.true channels now params s).0
  closes : Step s [] (close_active_mcap s).0
  starts : {t : Logger} → init_logging s ≡ some t → Step s [] t
  stops : Step s [] (stop_logging s)
  joins : {t : Logger} → join s ≡ some t → Step s [] t

-- Any number of steps, with all the messages logged on the way, in order.
pub data Reach (s : Logger) : List RawMessage → Logger → Type 0 where
  here : Reach s [] s
  next :
      {t u : Logger} {ms new all : List RawMessage}
      → Reach s ms t
      → Step t new u
      → all ≡ ms ++ new
      → Reach s all u
