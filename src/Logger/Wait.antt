-- ===== src/Logger/Wait.antt =====
-- The recorder's wait on its condition variable, and the calls that end it, in smaller steps than
-- those of Logger.Steps: `stop_logging` of MCAPLogger.cpp, and the destructor in MCAPLogger.hpp.
use drivebrain_software.Base.{ℕ, ◌≡◌, String, List, [], ◌∷◌, ◌++◌, Option, none, some, false, true}
use drivebrain_software.Logger.Defs.{
  RawMessage, Logger, Thread, absent, waiting, writing, finished, construct, log_msg,
  open_named_mcap, close_active_mcap, init_logging, stop_logging, join, thread_step,
}

-- In the wait: before the predicate, behind it with the lock still held, or asleep.
pub data Wait : Type 0 where
  testing : Wait
  parking : Wait
  parked : Wait

-- The thread that starts and stops the recording: outside these calls; in `stop_logging`, with the
-- flags written, then with the thread notified; in the destructor, likewise; behind it.
pub data Caller : Type 0 where
  idle : Caller
  stopping : Caller
  joining : Caller
  destroying : Caller
  leaving : Caller
  destroyed : Caller

pub record Recorder : Type 0 where
  pub logger : Logger
  pub wait : Wait
  pub caller : Caller

abbrev pub new_recorder : Recorder
unfolding construct
new_recorder = record { logger = construct; wait = testing; caller = idle }

-- A notification: a thread that sleeps tests the predicate again; any other does not notice.
unfoldable pub woken : Wait → Wait
woken testing = testing
woken parking = parking
woken parked = testing

-- A critical section that leaves `l`; nobody enters while the log thread holds the lock.
unfoldable pub locked : Wait → Logger → Recorder → Option Recorder
locked testing l r = some (record r { logger = l })
locked parking l r = none
locked parked l r = some (record r { logger = l })

-- `log_msg` and `log_params` notify before they leave the lock.
unfoldable pub locked_notify : Wait → Logger → Recorder → Option Recorder
unfolding woken
locked_notify testing l r = some (record r { logger = l; wait = woken testing })
locked_notify parking l r = none
locked_notify parked l r = some (record r { logger = l; wait = woken parked })

unfoldable pub after_test : Option Logger → Recorder → Recorder
after_test none r = record r { wait = parking }
after_test (some l) r = record r { logger = l }

unfoldable pub wait_step : Wait → Recorder → Option Recorder
unfolding after_test
wait_step testing r = some (after_test (thread_step r.logger) r)
wait_step parking r = some (record r { wait = parked })
wait_step parked r = none

unfoldable pub moved_on : Option Logger → Recorder → Option Recorder
moved_on none r = none
moved_on (some l) r = some (record r { logger = l })

-- One step of the log thread; `none` while it sleeps, and when it has returned.
unfoldable pub log_step_at : Thread → Recorder → Option Recorder
unfolding wait_step moved_on
log_step_at absent r = none
log_step_at waiting r = wait_step r.wait r
log_step_at writing r = moved_on (thread_step r.logger) r
log_step_at finished r = none

unfoldable pub log_step : Recorder → Option Recorder
unfolding log_step_at
log_step r = log_step_at r.logger.thread r

-- The first part of `stop_logging`, under the lock.
unfoldable pub begin_stop : Recorder → Option Recorder
unfolding locked
begin_stop r = locked r.wait (stop_logging r.logger) (record r { caller = stopping })

-- The first part of the destructor: it writes the same two flags, without the lock.
unfoldable pub begin_destroy : Recorder → Recorder
begin_destroy r = record r { logger = stop_logging r.logger; caller = destroying }

-- The other parts of the two calls: the notification, without the lock, and the join.
-- `_param_log_thread` is never started.
unfoldable pub advance_at : Caller → Recorder → Option Recorder
unfolding woken moved_on
advance_at idle r = none
advance_at stopping r = some (record r { wait = woken r.wait; caller = joining })
advance_at joining r = moved_on (join r.logger) (record r { caller = idle })
advance_at destroying r = some (record r { wait = woken r.wait; caller = leaving })
advance_at leaving r = moved_on (join r.logger) (record r { caller = destroyed })
advance_at destroyed r = none

unfoldable pub advance : Recorder → Option Recorder
unfolding advance_at
advance r = advance_at r.caller r

-- One step of any thread, with the messages that it adds to the buffer. A thread that sleeps may
-- wake up without a notification.
pub data Move (r : Recorder) : List RawMessage → Recorder → Type 0 where
  logs :
      (m : RawMessage) {t : Recorder}
      → locked_notify r.wait (log_msg m r.logger) r ≡ some t
      → Move r (m ∷ []) t
  opens :
      (file_name : String) (channels : List (String × ℕ)) (now : ℕ) (params : String) {t : Recorder}
      → r.caller ≡ idle
      → locked_notify r.wait (open_named_mcap file_name true channels now params r.logger).0 r
        ≡ some t
      → Move r
          (record {
            log_time = now;
            serialized_data = params;
            message_name = "drivebrain_configuration";
          }
            ∷ [])
          t
  fails_to_open :
      (file_name : String) (channels : List (String × ℕ)) (now : ℕ) (params : String)
      → r.caller ≡ idle
      → Move r []
          (record r { logger = (open_named_mcap file_name false channels now params r.logger).0 })
  closes : r.caller ≡ idle → Move r [] (record r { logger = (close_active_mcap r.logger).0 })
  starts :
      {l : Logger}
      → r.caller ≡ idle
      → init_logging r.logger ≡ some l
      → Move r [] (record r { logger = l; wait = testing })
  stops : {t : Recorder} → r.caller ≡ idle → begin_stop r ≡ some t → Move r [] t
  destroys : r.caller ≡ idle → Move r [] (begin_destroy r)
  advances : {t : Recorder} → advance r ≡ some t → Move r [] t
  runs : {t : Recorder} → log_step r ≡ some t → Move r [] t
  wakes_by_chance : r.wait ≡ parked → Move r [] (record r { wait = testing })

-- Any number of steps, with all the messages logged on the way, in order.
pub data Moves (r : Recorder) : List RawMessage → Recorder → Type 0 where
  here : Moves r [] r
  next :
      {t u : Recorder} {ms new all : List RawMessage}
      → Moves r ms t
      → Move t new u
      → all ≡ ms ++ new
      → Moves r all u
