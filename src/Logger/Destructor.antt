-- ===== src/Logger/Destructor.antt =====
-- The destructor of the recorder, which writes the flags and notifies without the lock.
use drivebrain_software.Base.{◌≡◌, refl, [], none}
use drivebrain_software.Logger.Defs.{absent, waiting, stop_logging, join, join_on}
use drivebrain_software.Logger.Wait.{
  idle, leaving, destroyed, parking, parked, Recorder, woken, moved_on, log_step, log_step_at,
  wait_step, begin_destroy, advance, advance_at, destroys, advances, runs, Moves, here, next,
}

-- The recorder in the destructor, behind its notification, with the log thread asleep.
abbrev pub slept_through : Recorder → Recorder
slept_through r = record r { logger = stop_logging r.logger; wait = parked; caller = leaving }

-- If the destructor begins just when the log thread has tested the predicate and not yet gone to
-- sleep, its writes and its notification can come before the sleep. Then neither thread has a step
-- left, until another message comes or the thread wakes up by chance.
pub destructor_hangs :
    (r : Recorder)
    → r.caller ≡ idle
    → r.logger.thread ≡ waiting
    → r.wait ≡ parking
    → Moves r [] (slept_through r)
      × (log_step (slept_through r) ≡ none)
      × (advance (slept_through r) ≡ none)
unfolding stop_logging begin_destroy advance advance_at woken log_step log_step_at wait_step
    moved_on join join_on
destructor_hangs r out at asleep = (
  next (next (next here (destroys out) refl) (advances {t = notified} (rw asleep refl)) refl)
      (runs {t = slept_through r} (rw at refl)) refl,
  rw at refl,
  rw at refl,
)
  where
    notified : Recorder
    notified = record r { logger = stop_logging r.logger; wait = parking; caller = leaving }

-- Without a log thread, as after `stop_logging`, the destructor comes to its end by itself.
pub destructor_passes :
    (r : Recorder)
    → r.caller ≡ idle
    → r.logger.thread ≡ absent
    → Moves r []
        (record r { logger = stop_logging r.logger; wait = woken r.wait; caller = destroyed })
unfolding stop_logging begin_destroy advance advance_at moved_on join join_on
destructor_passes r out none_left =
    next (next (next here (destroys out) refl) (advances {t = told} refl) refl)
      (advances (rw none_left refl)) refl
  where
    told : Recorder
    told = record r { logger = stop_logging r.logger; wait = woken r.wait; caller = leaving }
