-- ===== src/Logger/WaitSteps.antt =====
-- One step of the log thread in the recorder of Logger.Wait, and what holds in the course of a call
-- of `stop_logging`.
use mathlib.Core.Option.{some-injective, none-ne-some}
use drivebrain_software.Base.{
  ◌≡◌, refl, ◌≢◌, ◌⊎◌, inl, inr, ap, sym, ◌∙◌, subst, false, List, [], ◌∷◌, Option, none, some,
}
use drivebrain_software.Logger.Defs.{
  RawMessage, Logger, Thread, absent, waiting, writing, finished, thread_step, thread_at, wake,
  write_next,
}
use drivebrain_software.Logger.Wait.{
  Wait, testing, parking, parked, Caller, idle, stopping, joining, destroying, leaving, destroyed,
  Recorder, woken, locked, locked_notify, after_test, wait_step, moved_on, log_step, log_step_at,
}

-- Both flags are off, as `stop_logging` leaves them.
abbrev pub IsOff : Logger → Type 0
IsOff l = (l.running ≡ false) × (l.logging ≡ false)

-- What holds at each part of the two calls.
abbrev pub Stage : Caller → Wait → Logger → Type 0
Stage stopping w l = IsOff l × (w ≢ parking)
Stage joining w l = IsOff l × (w ≡ testing)
Stage _ w l = Unit

abbrev pub IsStaged : Recorder → Type 0
IsStaged r = Stage r.caller r.wait r.logger

-- A step of the log thread keeps the flags, and does not wait with `_running` false.
wake-IsOff :
    (ms : List RawMessage)
    → (s : Logger) → IsOff s
    → (l : Logger) × (wake ms false s ≡ some l) × IsOff l
unfolding wake
wake-IsOff [] s off = (_, refl, off)
wake-IsOff (m ∷ ms) s off = (_, refl, off)

write_next-IsOff :
    (ms : List RawMessage)
    → (s : Logger) → IsOff s
    → (l : Logger) × (write_next ms s ≡ some l) × IsOff l
unfolding write_next
write_next-IsOff [] s off = (_, refl, off)
write_next-IsOff (m ∷ ms) s off = (_, refl, off)

thread_step-waiting :
    (s : Logger) → s.thread ≡ waiting → IsOff s → (l : Logger) × (thread_step s ≡ some l) × IsOff l
unfolding thread_step thread_at
thread_step-waiting s at off =
    let (l, does, off') = wake-IsOff s.input_buffer s off in
    (l, ap (λ p. thread_at p s) at ∙ ap (λ b. wake s.input_buffer b s) (off.0) ∙ does, off')

thread_step-writing :
    (s : Logger) → s.thread ≡ writing → IsOff s → (l : Logger) × (thread_step s ≡ some l) × IsOff l
unfolding thread_step thread_at
thread_step-writing s at off =
    let (l, does, off') = write_next-IsOff s.write_buffer s off in
    (l, ap (λ p. thread_at p s) at ∙ does, off')

-- Nothing to do, or one step, the same in both views.
abbrev pub SameStep : Recorder → Type 0
SameStep r =
    ((log_step r ≡ none) × (thread_step r.logger ≡ none))
    ⊎ ((l : Logger) × (log_step r ≡ some (record r { logger = l }))
        × (thread_step r.logger ≡ some l)
        × IsOff l)

pub SameStep-at :
    (p : Thread)
    → (r : Recorder) → r.logger.thread ≡ p
    → IsOff r.logger
    → r.wait ≡ testing
    → SameStep r
unfolding log_step log_step_at thread_step thread_at wait_step after_test moved_on
SameStep-at absent r at off at_test =
    inl (ap (λ p. log_step_at p r) at, ap (λ p. thread_at p r.logger) at)
SameStep-at waiting r at off at_test =
    let (l, does, off') = thread_step-waiting r.logger at off in
    inr (
      l,
      ap (λ p. log_step_at p r) at
          ∙ ap (λ w. wait_step w r) at_test
          ∙ ap (λ o. some (after_test o r)) does,
      does,
      off',
    )
SameStep-at writing r at off at_test =
    let (l, does, off') = thread_step-writing r.logger at off in
    inr (l, ap (λ p. log_step_at p r) at ∙ ap (λ o. moved_on o r) does, does, off')
SameStep-at finished r at off at_test =
    inl (ap (λ p. log_step_at p r) at, ap (λ p. thread_at p r.logger) at)

pub locked-cases :
    (w : Wait) (l : Logger) (r : Recorder) {t : Recorder}
    → locked w l r ≡ some t
    → (w ≢ parking) × (record r { logger = l } ≡ t)
unfolding locked
locked-cases testing l r {t = t} e = (cc, some-injective _ t e)
locked-cases parking l r {t = t} e = absurd (none-ne-some t e)
locked-cases parked l r {t = t} e = (cc, some-injective _ t e)

pub locked_notify-cases :
    (w : Wait) (l : Logger) (r : Recorder) {t : Recorder}
    → locked_notify w l r ≡ some t
    → (w ≢ parking) × (record r { logger = l; wait = testing } ≡ t)
unfolding locked_notify woken
locked_notify-cases testing l r {t = t} e = (cc, some-injective _ t e)
locked_notify-cases parking l r {t = t} e = absurd (none-ne-some t e)
locked_notify-cases parked l r {t = t} e = (cc, some-injective _ t e)

pub moved_on-cases :
    (o : Option Logger) (r : Recorder) {t : Recorder}
    → moved_on o r ≡ some t
    → (l : Logger) × (o ≡ some l) × (record r { logger = l } ≡ t)
unfolding moved_on
moved_on-cases none r {t = t} e = absurd (none-ne-some t e)
moved_on-cases (some l) r {t = t} e = (l, refl, some-injective _ t e)

-- What a step of the log thread is.
pub data LogStep (r : Recorder) : Recorder → Type 0 where
  parks : (IsOff r.logger → ⊥) → LogStep r (record r { wait = parking })
  sleeps : r.wait ≡ parking → LogStep r (record r { wait = parked })
  works : {l : Logger} → thread_step r.logger ≡ some l → LogStep r (record r { logger = l })

after_test-LogStep :
    (o : Option Logger) (r : Recorder)
    → thread_step r.logger ≡ o
    → r.logger.thread ≡ waiting
    → LogStep r (after_test o r)
unfolding after_test
after_test-LogStep none r e at =
    parks (λ off.
      let (l, does, _) = thread_step-waiting r.logger at off in none-ne-some l (sym e ∙ does))
after_test-LogStep (some l) r e at = works e

wait_step-LogStep :
    (w : Wait) (r : Recorder) {t : Recorder}
    → r.wait ≡ w
    → r.logger.thread ≡ waiting
    → wait_step w r ≡ some t
    → LogStep r t
unfolding wait_step
wait_step-LogStep testing r {t = t} e at does =
    subst (LogStep r) (some-injective _ t does)
      (after_test-LogStep (thread_step r.logger) r refl at)
wait_step-LogStep parking r {t = t} e at does =
    subst (LogStep r) (some-injective _ t does) (sleeps e)
wait_step-LogStep parked r {t = t} e at does = absurd (none-ne-some t does)

pub log_step_at-LogStep :
    (p : Thread) (r : Recorder) {t : Recorder}
    → r.logger.thread ≡ p
    → log_step_at p r ≡ some t
    → LogStep r t
unfolding log_step_at
log_step_at-LogStep absent r {t = t} at does = absurd (none-ne-some t does)
log_step_at-LogStep waiting r at does = wait_step-LogStep r.wait r refl at does
log_step_at-LogStep writing r at does =
    let (l, e, is) = moved_on-cases (thread_step r.logger) r does in subst (LogStep r) is (works e)
log_step_at-LogStep finished r {t = t} at does = absurd (none-ne-some t does)

-- A step of the log thread keeps the flags off.
thread_step-IsOff :
    (p : Thread)
    → (s : Logger) {l : Logger} → s.thread ≡ p
    → IsOff s
    → thread_step s ≡ some l
    → IsOff l
unfolding thread_step thread_at
thread_step-IsOff absent s {l = l} at off e =
    absurd (none-ne-some l (sym (ap (λ p. thread_at p s) at) ∙ e))
thread_step-IsOff waiting s at off e =
    let (l, does, off') = thread_step-waiting s at off in
    subst IsOff (some-injective l _ (sym does ∙ e)) off'
thread_step-IsOff writing s at off e =
    let (l, does, off') = thread_step-writing s at off in
    subst IsOff (some-injective l _ (sym does ∙ e)) off'
thread_step-IsOff finished s {l = l} at off e =
    absurd (none-ne-some l (sym (ap (λ p. thread_at p s) at) ∙ e))

testing-awake : testing ≢ parking
testing-awake = cc

LogStep-Stage :
    (c : Caller) (r t : Recorder)
    → r.caller ≡ c
    → LogStep r t
    → Stage c r.wait r.logger
    → Stage c t.wait t.logger
LogStep-Stage idle r t is step h = tt
LogStep-Stage stopping r t is (parks runs_on) h = absurd (runs_on h.0)
LogStep-Stage stopping r t is (sleeps at) h = absurd (h.1 at)
LogStep-Stage stopping r t is (works e) h =
    (thread_step-IsOff r.logger.thread r.logger refl h.0 e, h.1)
LogStep-Stage joining r t is (parks runs_on) h = absurd (runs_on h.0)
LogStep-Stage joining r t is (sleeps at) h = absurd (testing-awake (sym (h.1) ∙ at))
LogStep-Stage joining r t is (works e) h =
    (thread_step-IsOff r.logger.thread r.logger refl h.0 e, h.1)
LogStep-Stage destroying r t is step h = tt
LogStep-Stage leaving r t is step h = tt
LogStep-Stage destroyed r t is step h = tt

pub LogStep-IsStaged : (r t : Recorder) → LogStep r t → IsStaged r → IsStaged t
LogStep-IsStaged r t step h =
    subst (λ c. Stage c t.wait t.logger) (same step) (LogStep-Stage r.caller r t refl step h)
  where
    same : {t : Recorder} → LogStep r t → r.caller ≡ t.caller
    same (parks runs_on) = refl
    same (sleeps at) = refl
    same (works e) = refl
