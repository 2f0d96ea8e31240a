-- ===== src/Logger/Restart.antt =====
-- A second `init_logging`, after a `stop_logging`: nothing sets `_running` back to true.
use drivebrain_software.Base.{
  ◌+◌, ◌≡◌, refl, ap, sym, ◌∙◌, subst, Bool, true, false, List, [], ◌∷◌, ◌++◌, Option, none, some,
  map, length,
}
use mathlib.Core.Option.{some-injective}
use drivebrain_software.Logger.Defs.{
  RawMessage, Logger, Thread, absent, waiting, writing, finished, status, log_msg, log_params,
  open_named_mcap, close_active_mcap, init_logging, start_on, stop_logging, join, join_on,
  thread_step, thread_at, wake, write_next,
}
use drivebrain_software.Logger.Steps.{
  Step, logs, runs, fails_to_open, opens, closes, starts, stops, joins, Reach, here, next,
}
use drivebrain_software.Logger.Drain.{run_thread, drain, during, tagged}

-- A partial step that leaves `running` as it is.
KeepsRunning : Logger → Option Logger → Type 0
KeepsRunning s none = Unit
KeepsRunning s (some t) = t.running ≡ s.running

thread_at-KeepsRunning : (w : Thread) (s : Logger) → KeepsRunning s (thread_at w s)
unfolding KeepsRunning thread_at wake write_next
thread_at-KeepsRunning absent s = tt
thread_at-KeepsRunning waiting s = woken s.input_buffer s.running
  where
    woken : (ms : List RawMessage) (on : Bool) → KeepsRunning s (wake ms on s)
    woken [] true = tt
    woken [] false = refl
    woken (m ∷ ms) on = refl
thread_at-KeepsRunning writing s = wrote s.write_buffer
  where
    wrote : (ms : List RawMessage) → KeepsRunning s (write_next ms s)
    wrote [] = refl
    wrote (m ∷ ms) = refl
thread_at-KeepsRunning finished s = tt

start_on-KeepsRunning : (w : Thread) (s : Logger) → KeepsRunning s (start_on w s)
unfolding KeepsRunning start_on
start_on-KeepsRunning absent s = refl
start_on-KeepsRunning waiting s = tt
start_on-KeepsRunning writing s = tt
start_on-KeepsRunning finished s = tt

join_on-KeepsRunning : (w : Thread) (s : Logger) → KeepsRunning s (join_on w s)
unfolding KeepsRunning join_on
join_on-KeepsRunning absent s = refl
join_on-KeepsRunning waiting s = tt
join_on-KeepsRunning writing s = tt
join_on-KeepsRunning finished s = refl

kept :
    (s : Logger) {t : Logger} {o : Option Logger}
    → o ≡ some t
    → KeepsRunning s o
    → t.running ≡ s.running
unfolding KeepsRunning
kept s e k = subst (KeepsRunning s) e k

Step-running :
    {s t : Logger} {ms : List RawMessage} → s.running ≡ false → Step s ms t → t.running ≡ false
unfolding log_msg log_params open_named_mcap close_active_mcap init_logging stop_logging join
    thread_step
Step-running off (logs m) = off
Step-running {s = s} off (runs e) = kept s e (thread_at-KeepsRunning s.thread s) ∙ off
Step-running off (fails_to_open f c n p) = off
Step-running off (opens f c n p) = off
Step-running off closes = off
Step-running {s = s} off (starts e) = kept s e (start_on-KeepsRunning s.thread s) ∙ off
Step-running off stops = refl
Step-running {s = s} off (joins e) = kept s e (join_on-KeepsRunning s.thread s) ∙ off

-- Once `running` is false it stays false, whatever the threads do, `init_logging` included.
pub running_stays_false :
    {s t : Logger} {ms : List RawMessage} → s.running ≡ false → Reach s ms t → t.running ≡ false
running_stays_false off here = off
running_stays_false off (next r step e) = Step-running (running_stays_false off r) step

unfoldable pub log_all : List RawMessage → Logger → Logger
log_all [] s = s
log_all (m ∷ ms) s = log_all ms (log_msg m s)

log_all-thread : (ms : List RawMessage) (s : Logger) → (log_all ms s).thread ≡ s.thread
unfolding log_all log_msg
log_all-thread [] s = refl
log_all-thread (m ∷ ms) s = log_all-thread ms (log_msg m s)

log_all-logging : (ms : List RawMessage) (s : Logger) → (log_all ms s).logging ≡ s.logging
unfolding log_all log_msg
log_all-logging [] s = refl
log_all-logging (m ∷ ms) s = log_all-logging ms (log_msg m s)

-- The logger says that it is logging, its thread has returned, and a start would end the program.
abbrev pub IsDeaf : Logger → Type 0
IsDeaf s =
    ((status s).1 ≡ true) × (s.thread ≡ finished) × (thread_step s ≡ none) × (init_logging s ≡ none)

finished-IsDeaf : (s : Logger) → s.thread ≡ finished → s.logging ≡ true → IsDeaf s
unfolding status thread_step thread_at init_logging start_on
finished-IsDeaf s end on = (on, end, ap (λ w. thread_at w s) end, ap (λ w. start_on w s) end)

-- The logger right after `init_logging`.
abbrev started : Logger → Logger
started s = record s { thread = waiting; logging = true }

init_logging-started : (s t : Logger) → s.thread ≡ absent → init_logging s ≡ some t → started s ≡ t
unfolding init_logging start_on
init_logging-started s t at e = some-injective (started s) t (ap (λ w. start_on w s) (sym at) ∙ e)

abbrev pub run_out : Logger → Logger
run_out t = run_thread (length t.write_buffer + length t.input_buffer + 4) t

-- A logger that was stopped and joined is started again. If no message comes before its thread has
-- written what was in the buffer, the thread returns, without a call of `stop_logging`. The status
-- goes on to say that the recording is on, and whatever messages are logged later, the thread has
-- no further step to write them, and another `init_logging` ends the program.
pub restarted-IsDeaf :
    (s t : Logger)
    → s.running ≡ false
    → s.thread ≡ absent
    → s.write_buffer ≡ []
    → init_logging s ≡ some t
    → (later : List RawMessage) → IsDeaf (log_all later (run_out t))
restarted-IsDeaf s t off at free e later =
    subst (λ u. IsDeaf (log_all later (run_out u))) (init_logging-started s t at e) deaf
  where
    end : Logger
    end =
        during (s.written ++ map (tagged s) (s.write_buffer ++ s.input_buffer)) [] [] finished
          (started s)

    deaf : IsDeaf (log_all later (run_out (started s)))
    deaf =
        subst (λ u. IsDeaf (log_all later u)) (sym (drain waiting (started s) refl tt free off))
          (finished-IsDeaf (log_all later end) (log_all-thread later end)
            (log_all-logging later end))
