-- ===== src/Feed/Folds.antt =====
-- Many messages handed on, one after the other.
use mathlib.Core.List.{append_assoc, append-nil}
use drivebrain_software.Base.{
  ℕ, suc, ◌≡◌, refl, ap, sym, ◌∙◌, subst, arith, String, List, [], ◌∷◌, ◌++◌, foldl, Dict,
  lookup-insert, eq_iff,
}
use drivebrain_software.Floats.{Floats}
use drivebrain_software.Logger.Defs.{RawMessage, log_msg, construct, channel_id}
use drivebrain_software.Logger.Steps.{Reach, logs, next}
use drivebrain_software.Schema.Channels.{Broadcast, send_live_telem_msg, at_name}
use drivebrain_software.Tracker.Messages.{Message}
use drivebrain_software.Tracker.Defs.{receive_all}
use drivebrain_software.Feed.Defs.{Times, System, raw_message, log, log_proto_message}

-- The number that a message is sent under is the one that its type had before, or 0, and the numbers
-- of the types stay.
at_name-channel_id : (name : String) (ids : Dict ℕ) → (at_name name ids).1 ≡ channel_id ids name
unfolding channel_id at_name
at_name-channel_id name ids = ground arith

at_name-keeps :
    (name : String) (ids : Dict ℕ) (other : String)
    → channel_id (at_name name ids).0 other ≡ channel_id ids other
unfolding channel_id at_name
at_name-keeps name ids other = ground (arith, lookup-insert name other 0 ids, eq_iff name other)

module _ {n : Floats} {M : Type 0} (name bytes : M → String) (fields : M → Message n)
    (clock : ℕ → Times) where
  -- The events that the tracker sees, the messages that the recorder takes, and what is broadcast,
  -- for messages from the `k`th on.
  abbrev pub events : ℕ → List M → List (ℕ × Message n)
  events k [] = []
  events k (m ∷ ms) = ((clock k).heard, fields m) ∷ events (suc k) ms

  abbrev pub recorded : ℕ → List M → List RawMessage
  recorded k [] = []
  recorded k (m ∷ ms) =
      (record { log_time = (clock k).logged; serialized_data = bytes m; message_name = name m })
      ∷ recorded (suc k) ms

  abbrev pub streamed : Dict ℕ → ℕ → List M → List Broadcast
  streamed ids k [] = []
  streamed ids k (m ∷ ms) =
      (record { channel = channel_id ids (name m); time = (clock k).sent; payload = bytes m })
      ∷ streamed ids (suc k) ms

  abbrev Fed : Type 0
  Fed = System n name bytes fields clock

  abbrev pub hand_on : List M → Fed → Fed
  hand_on ms s = foldl (λ u m. log_proto_message n name bytes fields clock m u) s ms

  pub hand_on-tracker :
      (ms : List M) (s : Fed) → (hand_on ms s).tracker ≡ receive_all n (events s.taken ms) s.tracker
  unfolding log_proto_message log receive_all
  hand_on-tracker [] s = refl
  hand_on-tracker (m ∷ ms) s = hand_on-tracker ms (log_proto_message n name bytes fields clock m s)

  pub hand_on-logger :
      (ms : List M) (s : Fed) {all : List RawMessage}
      → Reach construct all s.logger
      → Reach construct (all ++ recorded s.taken ms) (hand_on ms s).logger
  unfolding log_proto_message log raw_message
  hand_on-logger [] s {all = all} r =
      subst (λ l. Reach construct l s.logger) (sym (append-nil all)) r
  hand_on-logger (m ∷ ms) s {all = all} r =
      subst (λ l. Reach construct l (hand_on (m ∷ ms) s).logger) (append_assoc all _ _)
        (hand_on-logger ms (log_proto_message n name bytes fields clock m s)
          (next r (logs (raw_message n name bytes fields clock (clock s.taken).logged m)) refl))

  -- In the recorder only the buffer changes.
  pub hand_on-buffer :
      (ms : List M) (s : Fed)
      → (hand_on ms s).logger
        ≡ record (s.logger) { input_buffer = s.logger.input_buffer ++ recorded s.taken ms }
  unfolding log_proto_message log log_msg raw_message
  hand_on-buffer [] s =
      ap (λ l. record (s.logger) { input_buffer = l }) (sym (append-nil s.logger.input_buffer))
  hand_on-buffer (m ∷ ms) s =
      hand_on-buffer ms (log_proto_message n name bytes fields clock m s)
      ∙ ap (λ l. record (s.logger) { input_buffer = l }) (append_assoc s.logger.input_buffer _ _)

  streamed-same :
      (ids ids' : Dict ℕ)
      → ((other : String) → channel_id ids' other ≡ channel_id ids other)
      → (k : ℕ) (ms : List M) → streamed ids' k ms ≡ streamed ids k ms
  streamed-same ids ids' same k [] = refl
  streamed-same ids ids' same k (m ∷ ms) =
      ap
        (λ c.
          record { channel = c; time = (clock k).sent; payload = bytes m }
          ∷ streamed ids' (suc k) ms)
        (same (name m))
      ∙ ap
          (λ l.
            record { channel = channel_id ids (name m); time = (clock k).sent; payload = bytes m }
            ∷ l)
          (streamed-same ids ids' same (suc k) ms)

  pub hand_on-broadcasts :
      (ms : List M) (s : Fed)
      → (hand_on ms s).broadcasts ≡ s.broadcasts ++ streamed s.name_to_id_map s.taken ms
  unfolding log_proto_message log send_live_telem_msg
  hand_on-broadcasts [] s = sym (append-nil s.broadcasts)
  hand_on-broadcasts (m ∷ ms) s =
      let ids = s.name_to_id_map in
      let b : Broadcast = record {
        channel = channel_id ids (name m);
        time = (clock s.taken).sent;
        payload = bytes m;
      } in
      hand_on-broadcasts ms (log_proto_message n name bytes fields clock m s)
      ∙ ap (λ l. (log_proto_message n name bytes fields clock m s).broadcasts ++ l)
          (streamed-same ids (at_name (name m) ids).0 (at_name-keeps (name m) ids) (suc s.taken) ms)
      ∙ ap
          (λ (c : ℕ).
            (s.broadcasts
              ++ ((record { channel = c; time = (clock s.taken).sent; payload = bytes m }) ∷ []))
            ++ streamed ids (suc s.taken) ms)
          (at_name-channel_id (name m) ids)
      ∙ append_assoc s.broadcasts (b ∷ []) (streamed ids (suc s.taken) ms)
