-- ===== src/Logger/Conserve.antt =====
-- No message is lost, doubled or reordered on the way from `log_msg` to the writer.
use drivebrain_software.Base.{
  ℕ, ◌≡◌, refl, sym, ◌∙◌, Bool, true, false, List, [], ◌∷◌, ◌++◌, some, map, subst,
}
use mathlib.Core.Option.{some-injective, none-ne-some}
use mathlib.Core.List.{append-nil, append_assoc, map-append}
use drivebrain_software.Logger.Defs.{
  RawMessage, Logger, Thread, add_channels, absent, waiting, writing, finished, construct, log_msg,
  log_params, open_named_mcap, close_active_mcap, init_logging, stop_logging, start_on, join,
  join_on, thread_step, thread_at, wake, write_next, channel_id,
}
use drivebrain_software.Logger.Steps.{
  Step, logs, runs, fails_to_open, opens, closes, starts, stops, joins, Reach, here, next,
}

abbrev pub messages : List (ℕ × RawMessage) → List RawMessage
messages = map (λ w. w.1)

-- Every message that the logger has taken, oldest first: written, being written, or waiting.
abbrev pub held : Logger → List RawMessage
held s = messages s.written ++ (s.write_buffer ++ s.input_buffer)

-- Outside its loop the thread has nothing in hand.
abbrev pub HandsFree : Thread → List RawMessage → Type 0
HandsFree writing ms = Unit
HandsFree _ ms = ms ≡ []

abbrev KeepsHeld : Logger → Logger → Type 0
KeepsHeld s t = (held t ≡ held s) × HandsFree t.thread t.write_buffer

wake-KeepsHeld :
    (ms : List RawMessage)
    → (running : Bool) → (s t : Logger) → s.input_buffer ≡ ms
    → s.write_buffer ≡ []
    → wake ms running s ≡ some t
    → KeepsHeld s t
unfolding wake
wake-KeepsHeld [] true s t buf free e = absurd (none-ne-some t e)
wake-KeepsHeld [] false s t buf free e = subst (KeepsHeld s) (some-injective _ t e) (refl, free)
wake-KeepsHeld (m ∷ ms) running s t buf free e =
    subst (KeepsHeld s) (some-injective _ t e) (taken, tt)
  where
    taken : messages s.written ++ ((m ∷ ms) ++ []) ≡ held s
    taken = rw (buf, free, append-nil)

write_next-KeepsHeld :
    (ms : List RawMessage)
    → (s t : Logger) → s.write_buffer ≡ ms
    → s.thread ≡ writing
    → write_next ms s ≡ some t
    → KeepsHeld s t
unfolding write_next
write_next-KeepsHeld [] s t buf at e = subst (KeepsHeld s) (some-injective _ t e) (refl, buf)
write_next-KeepsHeld (m ∷ ms) s t buf at e =
    subst (KeepsHeld s) (some-injective _ t e) (moved, free)
  where
    moved :
        messages (s.written ++ ((channel_id s.name_to_id_map m.message_name, m) ∷ []))
          ++ (ms ++ s.input_buffer)
        ≡ held s
    moved = rw (buf, map-append, append_assoc)

    free : HandsFree s.thread ms
    free = rw at tt

thread_at-KeepsHeld :
    (w : Thread)
    → (s t : Logger) → s.thread ≡ w
    → HandsFree w s.write_buffer
    → thread_at w s ≡ some t
    → KeepsHeld s t
unfolding thread_at
thread_at-KeepsHeld absent s t at free e = absurd (none-ne-some t e)
thread_at-KeepsHeld waiting s t at free e = wake-KeepsHeld s.input_buffer s.running s t refl free e
thread_at-KeepsHeld writing s t at free e = write_next-KeepsHeld s.write_buffer s t refl at e
thread_at-KeepsHeld finished s t at free e = absurd (none-ne-some t e)

thread_step-KeepsHeld :
    (s t : Logger) → HandsFree s.thread s.write_buffer → thread_step s ≡ some t → KeepsHeld s t
unfolding thread_step
thread_step-KeepsHeld s t free e = thread_at-KeepsHeld s.thread s t refl free e

init_logging-KeepsHeld :
    (w : Thread)
    → (s t : Logger) → HandsFree w s.write_buffer
    → s.thread ≡ w
    → start_on w s ≡ some t
    → KeepsHeld s t
unfolding start_on
init_logging-KeepsHeld absent s t free at e =
    subst (KeepsHeld s) (some-injective _ t e) (refl, free)
init_logging-KeepsHeld waiting s t free at e = absurd (none-ne-some t e)
init_logging-KeepsHeld writing s t free at e = absurd (none-ne-some t e)
init_logging-KeepsHeld finished s t free at e = absurd (none-ne-some t e)

join-KeepsHeld :
    (w : Thread)
    → (s t : Logger) → HandsFree w s.write_buffer
    → s.thread ≡ w
    → join_on w s ≡ some t
    → KeepsHeld s t
unfolding join_on
join-KeepsHeld absent s t free at e = subst (KeepsHeld s) (some-injective s t e) (refl, rw at free)
join-KeepsHeld waiting s t free at e = absurd (none-ne-some t e)
join-KeepsHeld writing s t free at e = absurd (none-ne-some t e)
join-KeepsHeld finished s t free at e = subst (KeepsHeld s) (some-injective _ t e) (refl, free)

-- Adding messages at the back of the input buffer adds them at the back of what is held.
abbrev pub Holds : Logger → List RawMessage → Type 0
Holds s ms = (held s ≡ ms) × HandsFree s.thread s.write_buffer

log_msg-Holds :
    (m : RawMessage) (s : Logger) (ms : List RawMessage)
    → Holds s ms
    → Holds (log_msg m s) (ms ++ (m ∷ []))
unfolding log_msg
log_msg-Holds m s ms (h, free) = (added, free)
  where
    added : messages s.written ++ (s.write_buffer ++ (s.input_buffer ++ (m ∷ []))) ≡ ms ++ (m ∷ [])
    added = rw (sym h, append_assoc, append_assoc)

Step-Holds :
    {s t : Logger} {ms new : List RawMessage} → Holds s ms → Step s new t → Holds t (ms ++ new)
unfolding open_named_mcap log_params close_active_mcap init_logging stop_logging join
Step-Holds {s = s} {ms = ms} h (logs m) = log_msg-Holds m s ms h
Step-Holds {s = s} {t = t} {ms = ms} (h, free) (runs e) =
    let (kept, free') = thread_step-KeepsHeld s t free e in (kept ∙ h ∙ sym (append-nil ms), free')
Step-Holds {s = s} {ms = ms} (h, free) (fails_to_open f c n p) = (h ∙ sym (append-nil ms), free)
Step-Holds {s = s} {ms = ms} (h, free) (opens f c n p) =
    log_msg-Holds _ (record s { log_name = f; name_to_id_map = add_channels c s.name_to_id_map }) ms
      (h, free)
Step-Holds {s = s} {ms = ms} (h, free) closes = (h ∙ sym (append-nil ms), free)
Step-Holds {s = s} {t = t} {ms = ms} (h, free) (starts e) =
    let (kept, free') = init_logging-KeepsHeld s.thread s t free refl e in
    (kept ∙ h ∙ sym (append-nil ms), free')
Step-Holds {s = s} {ms = ms} (h, free) stops = (h ∙ sym (append-nil ms), free)
Step-Holds {s = s} {t = t} {ms = ms} (h, free) (joins e) =
    let (kept, free') = join-KeepsHeld s.thread s t free refl e in
    (kept ∙ h ∙ sym (append-nil ms), free')

pub Reach-Holds : {t : Logger} {all : List RawMessage} → Reach construct all t → Holds t all
unfolding construct
Reach-Holds here = (refl, refl)
Reach-Holds {t = t} (next r step e) = rw e (Step-Holds (Reach-Holds r) step)

-- From a newly constructed logger, whatever the threads do and in whatever order: the messages
-- written, then those that the log thread has in hand, then those in the input buffer, are all the
-- messages logged so far, each once and in the order logged.
pub logged_is_held :
    {t : Logger} {all : List RawMessage}
    → Reach construct all t
    → messages t.written ++ (t.write_buffer ++ t.input_buffer) ≡ all
logged_is_held r = (Reach-Holds r).0
