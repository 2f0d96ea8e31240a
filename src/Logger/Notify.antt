-- ===== src/Logger/Notify.antt =====
-- The recorder in small steps: it does what the recorder of Logger.Steps does, and the notification
-- of `stop_logging` is not lost.
use mathlib.Core.Option.{some-injective, none-ne-some}
use mathlib.Core.List.{append-nil}
use drivebrain_software.Base.{
  ℕ, zero, suc, ◌+◌, ◌≡◌, refl, ◌≢◌, ◌⊎◌, inl, inr, ap, sym, ◌∙◌, subst, false, List, [], ◌∷◌, ◌++◌,
  none, some, length,
}
use drivebrain_software.Logger.Defs.{
  RawMessage, Logger, absent, construct, log_msg, stop_logging, join,
}
use drivebrain_software.Logger.Steps.{Step, Reach}
use drivebrain_software.Logger.Steps
use drivebrain_software.Logger.Drain.{run_thread, IsStarted, IsComplete, stop_logging-writes_all}
use drivebrain_software.Logger.Wait.{
  Wait, testing, parking, parked, Caller, idle, stopping, joining, destroying, leaving, destroyed,
  Recorder, new_recorder, woken, moved_on, log_step, begin_stop, begin_destroy, advance, advance_at,
  Move, logs, opens, fails_to_open, closes, starts, stops, destroys, advances, runs,
  wakes_by_chance, Moves, here, next,
}
use drivebrain_software.Logger.WaitSteps.{
  IsOff, Stage, IsStaged, LogStep, parks, sleeps, works, SameStep-at, locked-cases,
  locked_notify-cases, moved_on-cases, log_step_at-LogStep, LogStep-IsStaged,
}

-- A step of the recorder of Logger.Steps, or none.
abbrev IsStep : Logger → List RawMessage → Logger → Type 0
IsStep l new l' = ((new ≡ []) × (l ≡ l')) ⊎ Step l new l'

abbrev Keeps : Recorder → List RawMessage → Recorder → Type 0
Keeps r new t = IsStep r.logger new t.logger × IsStaged t

woken-testing : (w : Wait) → w ≢ parking → woken w ≡ testing
unfolding woken
woken-testing testing free = refl
woken-testing parking free = absurd (free refl)
woken-testing parked free = refl

Stage-logs :
    (c : Caller) (w : Wait) (m : RawMessage) (l : Logger)
    → Stage c w l
    → Stage c testing (log_msg m l)
unfolding log_msg
Stage-logs idle w m l h = tt
Stage-logs stopping w m l h = (h.0, cc)
Stage-logs joining w m l h = (h.0, refl)
Stage-logs destroying w m l h = tt
Stage-logs leaving w m l h = tt
Stage-logs destroyed w m l h = tt

Stage-testing : (c : Caller) (w : Wait) (l : Logger) → Stage c w l → Stage c testing l
Stage-testing idle w l h = tt
Stage-testing stopping w l h = (h.0, cc)
Stage-testing joining w l h = (h.0, refl)
Stage-testing destroying w l h = tt
Stage-testing leaving w l h = tt
Stage-testing destroyed w l h = tt

stop_logging-IsOff : (l : Logger) → IsOff (stop_logging l)
unfolding stop_logging
stop_logging-IsOff l = (refl, refl)

Stage-idle : {c : Caller} (w : Wait) (l : Logger) → c ≡ idle → Stage c w l
Stage-idle w l is = subst (λ c. Stage c w l) (sym is) tt

LogStep-IsStep : {r t : Recorder} → LogStep r t → IsStep r.logger [] t.logger
LogStep-IsStep (parks runs_on) = inl (refl, refl)
LogStep-IsStep (sleeps at) = inl (refl, refl)
LogStep-IsStep (works e) = inr (Steps.runs e)

advance_at-Keeps :
    (c : Caller) (r : Recorder) {t : Recorder}
    → Stage c r.wait r.logger
    → advance_at c r ≡ some t
    → Keeps r [] t
unfolding advance_at
advance_at-Keeps idle r {t = t} h e = absurd (none-ne-some t e)
advance_at-Keeps stopping r {t = t} h e =
    subst (Keeps r []) (some-injective _ t e) (inl (refl, refl), (h.0, woken-testing r.wait (h.1)))
advance_at-Keeps joining r h e =
    let (l, does, is) = moved_on-cases (join r.logger) (record r { caller = idle }) e in
    subst (Keeps r []) is (inr (Steps.joins does), tt)
advance_at-Keeps destroying r {t = t} h e =
    subst (Keeps r []) (some-injective _ t e) (inl (refl, refl), tt)
advance_at-Keeps leaving r h e =
    let (l, does, is) = moved_on-cases (join r.logger) (record r { caller = destroyed }) e in
    subst (Keeps r []) is (inr (Steps.joins does), tt)
advance_at-Keeps destroyed r {t = t} h e = absurd (none-ne-some t e)

Move-Keeps : {r t : Recorder} {new : List RawMessage} → IsStaged r → Move r new t → Keeps r new t
unfolding begin_stop begin_destroy advance log_step
Move-Keeps {r = r} h (logs m e) =
    let (_, is) = locked_notify-cases r.wait (log_msg m r.logger) r e in
    subst (Keeps r (m ∷ [])) is (inr (Steps.logs m), Stage-logs r.caller r.wait m r.logger h)
Move-Keeps {r = r} h (opens file_name channels now params at e) =
    let (_, is) = locked_notify-cases r.wait _ r e in
    subst (Keeps r _) is (inr (Steps.opens file_name channels now params), Stage-idle testing _ at)
Move-Keeps {r = r} h (fails_to_open file_name channels now params at) =
    (inr (Steps.fails_to_open file_name channels now params), Stage-idle r.wait _ at)
Move-Keeps {r = r} h (closes at) = (inr Steps.closes, Stage-idle r.wait _ at)
Move-Keeps {r = r} h (starts at e) = (inr (Steps.starts e), Stage-idle testing _ at)
Move-Keeps {r = r} h (stops at e) =
    let (free, is) =
      locked-cases r.wait (stop_logging r.logger) (record r { caller = stopping }) e in
    subst (Keeps r []) is (inr Steps.stops, (stop_logging-IsOff r.logger, free))
Move-Keeps {r = r} h (destroys at) = (inr Steps.stops, tt)
Move-Keeps {r = r} h (advances e) = advance_at-Keeps r.caller r h e
Move-Keeps {r = r} h (runs {t = t} e) =
    let step = log_step_at-LogStep r.logger.thread r refl e in
    (LogStep-IsStep step, LogStep-IsStaged r t step h)
Move-Keeps {r = r} h (wakes_by_chance at) =
    (inl (refl, refl), Stage-testing r.caller r.wait r.logger h)

-- The small steps together are steps of the recorder of Logger.Steps.
pub Moves-Reach :
    {r : Recorder} {all : List RawMessage}
    → Moves new_recorder all r
    → Reach construct all r.logger × IsStaged r
unfolding construct
Moves-Reach here = (Steps.here, tt)
Moves-Reach (next {t = t} {u = u} {ms = ms} {all = all} walk move e) =
    let (reach, staged) = Moves-Reach walk in
    let (step, staged') = Move-Keeps staged move in
    (
      elim step [
        | inl (none_new, same) ↦ subst (Reach construct all) same (
            subst (λ ms. Reach construct ms t.logger)
              (sym (e ∙ ap (λ l. ms ++ l) none_new ∙ append-nil ms)) reach)
        | inr does ↦ Steps.next reach does e
      ],
      staged',
    )

-- The log thread alone, `n` steps at most.
abbrev pub run_log : ℕ → Recorder → Recorder
run_log zero r = r
run_log (suc n) r = elim (log_step r) [ none ↦ r | some t ↦ run_log n t ]

-- With the flags off and the thread awake, it is the thread of Logger.Drain.
run_log-run_thread :
    (n : ℕ) (r : Recorder)
    → IsOff r.logger
    → r.wait ≡ testing
    → run_log n r ≡ record r { logger = run_thread n r.logger }
unfolding run_thread
run_log-run_thread zero r off awake = refl
run_log-run_thread (suc n) r off awake = elim (SameStep-at r.logger.thread r refl off awake) [
  | inl (rests, rests') ↦
      ap (λ o. elim o [ none ↦ r | some t ↦ run_log n t ]) rests
      ∙ ap (λ l. record r { logger = l })
          (sym (ap (λ o. elim o [ none ↦ r.logger | some t ↦ run_thread n t ]) rests'))
  | inr (l, does, does', off') ↦
      ap (λ o. elim o [ none ↦ r | some t ↦ run_log n t ]) does
      ∙ run_log-run_thread n (record r { logger = l }) off' awake
      ∙ ap (λ l. record r { logger = l })
          (sym (ap (λ o. elim o [ none ↦ r.logger | some t ↦ run_thread n t ]) does'))
]

stop_logging-again : (l : Logger) → IsOff l → stop_logging l ≡ l
unfolding stop_logging
stop_logging-again l off =
    ap (λ b. record l { running = b; logging = false }) (sym (off.0))
    ∙ ap (λ b. record l { logging = b }) (sym (off.1))

-- The thread has returned with everything written, and the call goes on behind its join.
abbrev pub HasReturned : List RawMessage → Recorder → Type 0
HasReturned all r =
    IsComplete all r.logger
    × (advance r ≡ some (record r { logger = record r.logger { thread = absent }; caller = idle }))

-- Whatever the threads did before, when a call of `stop_logging` has notified, the log thread is not
-- asleep, if there is one. Left to itself, it returns within as many steps as there are messages
-- waiting and four more; then all messages ever logged are written, in order, and the call returns.
pub stop_logging-Returns :
    {r : Recorder} {all : List RawMessage}
    → Moves new_recorder all r
    → r.caller ≡ joining
    → IsStarted r.logger.thread
    → HasReturned all (run_log (length r.logger.write_buffer + length r.logger.input_buffer + 4) r)
unfolding advance advance_at moved_on
stop_logging-Returns {r = r} {all = all} walk at on =
    let (reach, staged) = Moves-Reach walk in
    let (off, awake) = subst (λ c. Stage c r.wait r.logger) at staged in
    let n = length r.logger.write_buffer + length r.logger.input_buffer + 4 in
    let complete =
      subst (λ l. IsComplete all (run_thread n l)) (stop_logging-again r.logger off)
        (stop_logging-writes_all reach on) in
    let (_, _, _, _, joins) = complete in
    let ended = record r { logger = run_thread n r.logger } in
    subst (HasReturned all) (sym (run_log-run_thread n r off awake)) (
      complete,
      ap (λ c. advance_at c ended) at ∙ ap (λ o. moved_on o (record ended { caller = idle })) joins,
    )
