-- ===== src/Interface/Ready.antt =====
-- No change request ends the program, and what a request leaves.
use Prim.Native.String.{String, ◌++◌}
use drivebrain_software.Base.{
  ℕ, zero, suc, ◌+◌, ◌≡◌, refl, ap, sym, ◌∙◌, subst, true, false, ◌⊎◌, inl, inr, Bool, List, [],
  Option, none, some, length, ◌==◌, Bool-cases, Option-cases, lookup, if◌then◌else◌,
}
use drivebrain_software.Base.Int.{ℤ, pos, negsuc}
use drivebrain_software.Floats.{Floats}
use drivebrain_software.Vehicle.{VehicleState}
use drivebrain_software.Params.Db.{ParamMap, DbParam, get_if_bool, get_if_int}
use drivebrain_software.Logger.Defs.{
  Logger, Thread, absent, waiting, writing, finished, status, open_named_mcap, close_active_mcap,
  init_logging, stop_logging, join, join_on, start_on, thread_step, thread_at, log_params, log_msg,
}
use drivebrain_software.Logger.Names.{get_logfile_name}
use drivebrain_software.Logger.Opening.{open_new_mcap}
use drivebrain_software.Logger.Conserve.{HandsFree}
use drivebrain_software.Logger.Drain.{run_thread, drain}
use drivebrain_software.Manager.Defs.{Manager, ControllerOps}
use drivebrain_software.Manager.Safety.{IsSafe, swap-IsSafe}
use drivebrain_software.Interface.Defs.{
  Disk, request_start_logging, stop_and_join, request_stop_logging, request_controller_change,
  handle_should_log, handle_controller_index, handle_parameter_updates,
}

abbrev pub IsLive : Thread → Type 0
IsLive absent = ⊥
IsLive _ = Unit

-- Between two calls: no recording and no thread, or a recording and a thread.
abbrev pub IsIdle : Logger → Type 0
IsIdle l = (l.logging ≡ false) × (l.thread ≡ absent) × (l.write_buffer ≡ [])

abbrev pub IsRecording : Logger → Type 0
IsRecording l = (l.logging ≡ true) × IsLive l.thread × HandsFree l.thread l.write_buffer

abbrev pub IsReady : Logger → Type 0
IsReady l = IsIdle l ⊎ IsRecording l

Joins : Logger → Type 0
Joins t = (l : Logger) × (join t ≡ some l) × IsIdle l

finished-Joins :
    (t : Logger) → t.thread ≡ finished → t.logging ≡ false → t.write_buffer ≡ [] → Joins t
unfolding Joins join join_on
finished-Joins t end off free =
    (record t { thread = absent }, ap (λ w. join_on w t) end, (off, refl, free))

run_thread-end : (k : ℕ) (s : Logger) → s.thread ≡ finished → run_thread k s ≡ s
unfolding run_thread thread_step thread_at
run_thread-end zero s end = refl
run_thread-end (suc k) s end = rw end

stop_and_join-Joins :
    (w : Thread) (l : Logger)
    → l.thread ≡ w
    → IsLive w
    → HandsFree w l.write_buffer
    → (l' : Logger) × (stop_and_join l ≡ some l') × IsIdle l'
unfolding stop_and_join stop_logging Joins
stop_and_join-Joins w l at live free = unfold Joins in stopped w at live free
  where
    s : Logger
    s = stop_logging l

    stopped :
        (w : Thread)
        → l.thread ≡ w
        → IsLive w
        → HandsFree w l.write_buffer
        → Joins (run_thread (length l.write_buffer + length l.input_buffer + 4) s)
    stopped absent at live free = absurd live
    stopped waiting at live free =
        subst Joins (sym (drain waiting s at tt free refl)) (finished-Joins _ refl refl refl)
    stopped writing at live free =
        subst Joins (sym (drain writing s at tt free refl)) (finished-Joins _ refl refl refl)
    stopped finished at live free =
        subst Joins (sym (run_thread-end _ s at)) (finished-Joins s at refl free)

request_stop_logging-IsIdle :
    (l : Logger) → IsReady l → (l' : Logger) × (request_stop_logging l ≡ some l') × IsIdle l'
unfolding request_stop_logging status close_active_mcap
request_stop_logging-IsIdle l (inl (off, at, free)) = (l, rw off, (off, at, free))
request_stop_logging-IsIdle l (inr (on, live, free)) =
    let (l', e, idle) = stop_and_join-Joins l.thread l refl live free in
    (
      (close_active_mcap l').0,
      ap {B = Option Logger}
            (λ b.
              if b
              then elim (stop_and_join l) [
                | none ↦ none
                | some l'' ↦ some (close_active_mcap l'').0
              ]
              else some l)
            on
          ∙ ap {B = Option Logger}
              (λ (o : Option Logger). elim o [
                | none ↦ none
                | some l'' ↦ some (close_active_mcap l'').0
              ])
              e,
      idle,
    )

-- The file is opened, or not, under the name that was chosen.
opens_named :
    (d : Disk) (name : List ℕ) (l : Logger)
    → get_logfile_name d.directory ≡ some name
    → open_new_mcap d.directory d.spell d.opened d.channels d.now d.initial_params l
      ≡ some (
          open_named_mcap
            ("/home/nixos/recordings/" ++ d.spell name)
            d.opened
            d.channels
            d.now
            d.initial_params
            l)
unfolding open_new_mcap
opens_named d name l chosen = rw (chosen, open_new_mcap) refl

named-IsRecording :
    (file_name : String) (opened : Bool) (channels : List (String × ℕ)) (now : ℕ) (params : String)
    (l : Logger)
    → IsIdle l
    → (l' : Logger) × (init_logging (open_named_mcap file_name opened channels now params l).0
        ≡ some l')
      × IsRecording l'
unfolding init_logging start_on open_named_mcap log_params log_msg
named-IsRecording file_name true channels now params l (off, at, free) = (
  _,
  ap (λ w. start_on w (open_named_mcap file_name true channels now params l).0) at,
  (refl, tt, free),
)
named-IsRecording file_name false channels now params l (off, at, free) = (
  _,
  ap (λ w. start_on w (open_named_mcap file_name false channels now params l).0) at,
  (refl, tt, free),
)

request_start_logging-IsRecording :
    (d : Disk) (name : List ℕ) (l : Logger)
    → get_logfile_name d.directory ≡ some name
    → IsReady l
    → (l' : Logger) × (request_start_logging d l ≡ some l') × IsRecording l'
unfolding request_start_logging status
request_start_logging-IsRecording d name l chosen (inl (off, at, free)) =
    let (l', e, ok) =
      named-IsRecording ("/home/nixos/recordings/" ++ d.spell name) d.opened d.channels d.now
        d.initial_params l (off, at, free) in
    (
      l',
      rw off (
          ap {B = Option Logger}
            (λ (o : Option (Logger × ℤ)). elim o [ none ↦ none | some r ↦ init_logging r.0 ])
            (opens_named d name l chosen)
          ∙ e),
      ok,
    )
request_start_logging-IsRecording d name l chosen (inr (on, live, free)) =
    (l, rw on, (on, live, free))

handle_should_log-IsReady :
    {n : Floats} (d : Disk) (name : List ℕ) (p : DbParam n) (l : Logger)
    → get_logfile_name d.directory ≡ some name
    → IsReady l
    → (l' : Logger) × (handle_should_log d (some p) l ≡ some l') × IsReady l'
unfolding handle_should_log
handle_should_log-IsReady {n = n} d name p l chosen ready = elim (Option-cases (get_if_bool n p)) [
  | inl other ↦ (l, rw (other, handle_should_log), ready)
  | inr (true, found) ↦
      let (l', e, ok) = request_start_logging-IsRecording d name l chosen ready in
      (l', rw (found, handle_should_log) e, inr ok)
  | inr (false, found) ↦
      let (l', e, ok) = request_stop_logging-IsIdle l ready in
      (l', rw (found, handle_should_log) e, inl ok)
]

module _ {n : Floats} {C : Type 0} (ops : ControllerOps n C) where
  request_controller_change-IsSafe :
      (i : ℤ) (input : VehicleState n) (m : Manager n C)
      → IsSafe ops m
      → (m' : Manager n C) × (request_controller_change ops i input m ≡ some m') × IsSafe ops m'
  unfolding request_controller_change
  request_controller_change-IsSafe (negsuc i) input m safe = (m, refl, safe)
  request_controller_change-IsSafe (pos i) input m safe =
      elim (Bool-cases (i == m.current_controller_index)) [
        | inl same ↦ (m, rw same, safe)
        | inr other ↦ let (r, e, ok) = swap-IsSafe ops i input m safe in (r.0, rw (other, e), ok)
      ]

  handle_controller_index-IsSafe :
      (p : DbParam n) (input : VehicleState n) (m : Manager n C)
      → IsSafe ops m
      → (m' : Manager n C) × (handle_controller_index ops input (some p) m ≡ some m')
        × IsSafe ops m'
  unfolding handle_controller_index
  handle_controller_index-IsSafe p input m safe = elim (Option-cases (get_if_int n p)) [
    | inl other ↦ (m, rw (other, handle_controller_index), safe)
    | inr (i, found) ↦
        let (m', e, ok) = request_controller_change-IsSafe i input m safe in
        (m', rw (found, handle_controller_index) e, ok)
  ]

  -- If both parameters are there, whatever their values and types, and a name for the next file can
  -- be chosen, then with an active controller, and a recorder that is stopped or has a thread, the
  -- handler of parameter changes returns, whether the file can be opened or not, and leaves an active
  -- controller and such a recorder again.
  pub handle_parameter_updates-IsReady :
      (params : ParamMap n) (d : Disk) (input : VehicleState n) (l : Logger) (m : Manager n C)
      → (name : List ℕ) → get_logfile_name d.directory ≡ some name
      → (should_log index : DbParam n)
      → lookup "drivebraincontrollerinterface/should_log" params ≡ some should_log
      → lookup "drivebraincontrollerinterface/controller_index" params ≡ some index
      → IsReady l
      → IsSafe ops m
      → (l' : Logger) × (m' : Manager n C) × (handle_parameter_updates ops params d input (l, m)
          ≡ some (l', m'))
        × IsReady l'
        × IsSafe ops m'
  unfolding handle_parameter_updates
  handle_parameter_updates-IsReady params d input l m name chosen p q has_log has_index ready safe =
      let (l', e, ready') = handle_should_log-IsReady d name p l chosen ready in
      let (m', e', safe') = handle_controller_index-IsSafe q input m safe in
      (l', m', rw (has_log, e, has_index, e', handle_parameter_updates), ready', safe')
