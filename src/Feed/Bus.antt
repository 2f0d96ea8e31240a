-- ===== src/Feed/Bus.antt =====
-- From a bus to the tracker, the recorder and the clients: the readers of CANComms and SimComms with what
-- they hand their messages on to.
use drivebrain_software.Base.{
  ℕ, ◌+◌, ◌≡◌, refl, map, ap, sym, ◌∙◌, subst, String, List, ◌++◌, length,
}
use drivebrain_software.Floats.{Floats}
use drivebrain_software.Logger.Defs.{RawMessage, stop_logging, construct}
use drivebrain_software.Logger.Steps.{Reach}
use drivebrain_software.Logger.Drain.{
  IsStarted, IsComplete, tagged, run_thread, drain, stop_logging-writes_all,
}
use drivebrain_software.Logger.Conserve.{Reach-Holds}
use drivebrain_software.Tracker.Messages.{Message}
use drivebrain_software.Tracker.Clock.{Stamps}
use drivebrain_software.Tracker.Defs.{receive_all}
use drivebrain_software.Tracker.Snapshot.{receive_all-append}
use drivebrain_software.Tracker.Defs as Tracker
use drivebrain_software.Tracker.Fields.{IsLatest, receive_all-IsLatest}
use drivebrain_software.Feed.Defs.{Times, System}
use drivebrain_software.Feed.Folds.{
  events, recorded, streamed, hand_on, hand_on-tracker, hand_on-logger, hand_on-buffer,
  hand_on-broadcasts,
}

module _ {n : Floats} {M : Type 0} (name bytes : M → String) (fields : M → Message n)
    (clock : ℕ → Times) where
  abbrev Fed : Type 0
  Fed = System n name bytes fields clock

  abbrev heard : Fed → List M → List (ℕ × Message n)
  heard s ms = events name bytes fields clock s.taken ms

  -- So far the tracker has handled `es`, and `all` was logged; the log thread runs.
  pub record IsAfter (garbage : Stamps) (es : List (ℕ × Message n)) (all : List RawMessage)
      (s : Fed) : Type 0 where
    pub handled : s.tracker ≡ receive_all n es (Tracker.construct n garbage)
    pub logged : Reach construct all s.logger
    pub records : IsStarted s.logger.thread

  -- The published state has the latest values of the messages. Each of them was broadcast with its
  -- bytes, under the number that the server had for its type, or 0. And once the recording is stopped,
  -- the log thread, left to itself, returns, and has given each of them to the writer, behind what
  -- was logged before, under the number of its type's channel in the log, or 0.
  pub record HasTaken (es : List (ℕ × Message n)) (all : List RawMessage) (ms : List M) (s t : Fed)
      : Type 0 where
    pub published : IsLatest (es ++ heard s ms) t.tracker.vehicle_state
    pub streams :
        t.broadcasts ≡ s.broadcasts ++ streamed name bytes fields clock s.name_to_id_map s.taken ms
    pub file : IsComplete (all ++ recorded name bytes fields clock s.taken ms) (
        run_thread
          (length t.logger.write_buffer + length t.logger.input_buffer + 4)
          (stop_logging t.logger))
    pub numbers :
        (run_thread
          (length t.logger.write_buffer + length t.logger.input_buffer + 4)
          (stop_logging t.logger)).written
        ≡ s.logger.written
          ++ map (tagged s.logger) (
              s.logger.write_buffer
              ++ (s.logger.input_buffer ++ recorded name bytes fields clock s.taken ms))

  pub hand_on-HasTaken :
      {garbage : Stamps} {es : List (ℕ × Message n)} {all : List RawMessage} (s : Fed)
      → IsAfter garbage es all s
      → (ms : List M) → HasTaken es all ms s (hand_on name bytes fields clock ms s)
  unfolding stop_logging
  hand_on-HasTaken {garbage = garbage} {es = es} {all = all} s before ms = record {
    published =
        subst (λ t. IsLatest (es ++ heard s ms) t.vehicle_state) (sym seen)
          (receive_all-IsLatest garbage (es ++ heard s ms));
    streams = hand_on-broadcasts name bytes fields clock ms s;
    file =
        stop_logging-writes_all (hand_on-logger name bytes fields clock ms s before.logged)
          (subst IsStarted (sym same_thread) before.records);
    numbers =
        ap (λ l. l.written)
          (drain t.logger.thread (stop_logging t.logger) refl
            (subst IsStarted (sym same_thread) before.records)
            (Reach-Holds (hand_on-logger name bytes fields clock ms s before.logged)).1 refl)
        ∙ ap (λ l. l.written ++ map (tagged l) (l.write_buffer ++ l.input_buffer)) same;
  }
    where
      t : Fed
      t = hand_on name bytes fields clock ms s

      same : t.logger ≡ record (s.logger) {
        input_buffer = s.logger.input_buffer ++ recorded name bytes fields clock s.taken ms;
      }
      same = hand_on-buffer name bytes fields clock ms s

      same_thread : t.logger.thread ≡ s.logger.thread
      same_thread = ap (λ l. l.thread) same

      seen :
          (hand_on name bytes fields clock ms s).tracker
          ≡ receive_all n (es ++ heard s ms) (Tracker.construct n garbage)
      seen =
          hand_on-tracker name bytes fields clock ms s
          ∙ ap (receive_all n (heard s ms)) before.handled
          ∙ sym (receive_all-append es (heard s ms) (Tracker.construct n garbage))
