-- ===== src/Checks/Sending.antt =====
-- Messages given to a CAN driver.
use drivebrain_software.Base.{
  ℕ, ◌≡◌, sym, ◌∙◌, refl, subst, arith, true, none, insert, String, List, [], ◌∷◌, some, Dict,
  lookup, All, ◌==◌,
}
use mathlib.Core.Option.{none-ne-some}
use drivebrain_software.Base.Text.{to_lowercase, tolower}
use drivebrain_software.Base.Int.{pos}
use drivebrain_software.Floats.Micros.{micro_floats}
use drivebrain_software.Can.Defs.{
  DbcMessage, Value, int32_value, bool_value, CanFrame, WriteResult, find_id, insert_id, insert_new,
  init_tables, add_messages, again, failed, wrote,
}
use drivebrain_software.Can.Driver.{Output}
use drivebrain_software.Can.Reading.{HasFields}
use drivebrain_software.Can.Sending.{Send, IsEncodable, Sent, send_all, after_calls, send_all-Sent}
use drivebrain_software.Checks.Can.{Payload, signals, frame}
use drivebrain_software.Checks.CanLink.{message, sent_fields, only}

abbrev sends : List (Send micro_floats Payload)
sends =
    record { short_name = "torque_set"; fields = sent_fields; result = wrote 16 }
    ∷ record { short_name = "mcap_info"; fields = []; result = wrote 16 }
    ∷ record { short_name = "Torque_Set"; fields = sent_fields; result = again }
    ∷ record { short_name = "torque_set"; fields = sent_fields; result = failed }
    ∷ []

pub sent_fields-HasFields : HasFields sent_fields signals
unfolding lookup
sent_fields-HasFields = ((int32_value (pos 7), refl), ((bool_value true, refl), tt))

-- The only message of the file is `message`.
pub with_message :
    (fields : Dict (Value micro_floats Payload))
    → HasFields fields signals
    → (m : DbcMessage micro_floats Payload) (id : ℕ)
    → find_id id (init_tables micro_floats Payload (message ∷ [])).messages ≡ some m
    → HasFields fields (DbcMessage.signals m)
unfolding find_id init_tables add_messages insert_id
with_message fields has m id there =
    subst (λ (x : DbcMessage micro_floats Payload). HasFields fields x.signals)
      (only (291 == id) message m there) has

not_in_file :
    lookup
      (to_lowercase "mcap_info")
      (init_tables micro_floats Payload (message ∷ [])).names_to_can_id
    ≡ none
unfolding lookup init_tables add_messages insert_new to_lowercase tolower insert
not_in_file = refl

sends-IsEncodable : All (IsEncodable (message ∷ []) frame) sends
sends-IsEncodable = (
  torque _ (wrote 16),
  (
    (λ id m (named, there). absurd (none-ne-some id (sym not_in_file ∙ named))),
    (torque _ again, (torque _ failed, tt)),
  ),
)
  where
    torque :
        (name : String) (result : WriteResult)
        → IsEncodable
            (message ∷ [])
            frame
            (record { short_name = name; fields = sent_fields; result = result })
    torque name result id m (named, there) =
        with_message sent_fields sent_fields-HasFields m id there

abbrev nothing_sent : Output micro_floats Payload
nothing_sent = record {
  frames = [];
  counters = record { tx_drop_count = 18446744073709551615; tx_error_count = 0 };
}

send_all-Sent_example :
    (fs : List (CanFrame micro_floats Payload)) × (drops : ℕ) × (errors : ℕ) × Sent
      (message ∷ [])
      frame
      sends
      fs
      drops
      errors
    × (send_all (message ∷ []) frame sends nothing_sent
        ≡ some (after_calls (message ∷ []) frame fs drops errors nothing_sent))
send_all-Sent_example =
    send_all-Sent (message ∷ []) frame sends nothing_sent sends-IsEncodable
      (omega arith, omega arith)
