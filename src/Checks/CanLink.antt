-- ===== src/Checks/CanLink.antt =====
-- A message sent as a frame and received, and runs of the driver around it.
use mathlib.Core.List.{foldl}
use mathlib.Core.Option.{some-injective, none-ne-some}
use Prim.Native.String.{String, ◌++◌}
use drivebrain_software.Base.{
  ◌≡◌, ◌≢◌, refl, subst, true, false, List, [], ◌∷◌, Option, none, some, Dict, lookup, All, str_eq,
  eq_iff, ◌==◌, Bool, if◌then◌else◌,
}
use drivebrain_software.Base.Int.{pos}
use drivebrain_software.Base.Text.{to_lowercase, tolower}
use drivebrain_software.Floats.Micros.{micro_floats}
use drivebrain_software.Can.Defs.{
  Signal, DbcMessage, Value, int32_value, bool_value, ProtoMessage, CanFrame, Tables, find_id,
  encode_can_frame, decode_can_frame, number_of, converted,
}
use drivebrain_software.Can.Frames.{IsLaidOut}
use drivebrain_software.Can.Roundtrip.{Survives, decode_can_frame-encode_can_frame}
use drivebrain_software.Can.Driver.{
  Setup, Driver, ReadResult, again, failed, bytes, receive_handler,
}
use drivebrain_software.Can.Startup.{Outcome, init_lem}
use drivebrain_software.Can.Reading.{IsCovered, HasFields, Received, receive_handler-Received}
use drivebrain_software.Checks.Can.{Payload, torque_signal, mode_signal, signals, frame}

abbrev pub message : DbcMessage micro_floats Payload
message = record {
  id = 291;
  message_name = "Torque_Set";
  message_size = 8;
  signals = signals;
  mux_signal = none;
}

abbrev pub tables : Tables micro_floats Payload
tables = record { messages = (291, message) ∷ []; names_to_can_id = ("torque_set", 291) ∷ [] }

abbrev pub sent_fields : Dict (Value micro_floats Payload)
sent_fields = ("torque", int32_value (pos 7)) ∷ ("mode", bool_value true) ∷ []

abbrev fresh_fields : Dict (Value micro_floats Payload)
fresh_fields = ("torque", int32_value (pos 0)) ∷ ("mode", bool_value false) ∷ []

abbrev pub pool : String → Option (Dict (Value micro_floats Payload))
pool name = if str_eq name "hytech.torque_set" then some fresh_fields else none

torque-Survives : Survives sent_fields fresh_fields torque_signal
unfolding lookup number_of converted
torque-Survives = record {
  plain = refl;
  value = int32_value (pos 7);
  old = int32_value (pos 0);
  number = pos 7_000_000;
  has = refl;
  encoded = refl;
  had = refl;
  exact = refl;
}

mode-Survives : Survives sent_fields fresh_fields mode_signal
unfolding lookup number_of converted
mode-Survives = record {
  plain = refl;
  value = bool_value true;
  old = bool_value false;
  number = pos 1_000_000;
  has = refl;
  encoded = refl;
  had = refl;
  exact = refl;
}

sent_fields-IsLaidOut : IsLaidOut sent_fields signals
unfolding lookup number_of
sent_fields-IsLaidOut = ((λ d. refl), ((λ r d. refl), tt), ((λ d. refl), tt, tt))

names_apart : mode_signal.name ≢ torque_signal.name
names_apart e = cc ((eq_iff "mode" "torque").1 e)

knows_name : lookup (to_lowercase "Torque_Set") tables.names_to_can_id ≡ some 291
unfolding lookup to_lowercase tolower
knows_name = refl

knows_id : find_id 291 tables.messages ≡ some message
unfolding find_id
knows_id = refl

knows_type : pool ("hytech." ++ to_lowercase "Torque_Set") ≡ some fresh_fields
unfolding to_lowercase tolower
knows_type = refl

decode_can_frame-encode_can_frame_example :
    (sent : CanFrame micro_floats Payload) × (received : ProtoMessage micro_floats Payload)
    × (encode_can_frame micro_floats Payload tables "Torque_Set" sent_fields frame
        ≡ some (sent, pos 0))
    × (decode_can_frame micro_floats Payload pool tables sent ≡ some (some received))
    × All
        (λ (sig : Signal micro_floats Payload).
          lookup sig.name received.fields ≡ lookup sig.name sent_fields)
        signals
decode_can_frame-encode_can_frame_example =
    decode_can_frame-encode_can_frame pool tables "Torque_Set" sent_fields fresh_fields frame 291
      message knows_name knows_id knows_type ((names_apart, tt), (tt, tt)) sent_fields-IsLaidOut
      (torque-Survives, (mode-Survives, tt))

abbrev idle : Driver micro_floats Payload
idle = record {
  socket_open = false;
  tables = record { messages = []; names_to_can_id = [] };
  has_reader = false;
}

-- The file cannot be parsed.
abbrev bad_file : Setup micro_floats Payload
bad_file = record {
  socket = true;
  get_index = true;
  bind = true;
  set_non_blocking = true;
  dbc = some none;
}

init_lem_example : Outcome bad_file idle
init_lem_example = init_lem bad_file idle refl

-- What a look-up with one entry finds is that entry.
pub only : {A : Type 0} (b : Bool) (x y : A) → (if b then some x else none) ≡ some y → x ≡ y
only true x y e = some-injective x y e
only false x y e = absurd (none-ne-some y e)

fresh-HasFields : HasFields fresh_fields signals
unfolding lookup
fresh-HasFields = ((int32_value (pos 0), refl), ((bool_value false, refl), tt))

pub tables-IsCovered : IsCovered pool tables
unfolding find_id
tables-IsCovered id m fields there type =
    subst (λ f. HasFields f (DbcMessage.signals m)) (only _ fresh_fields fields type)
      (subst (λ (x : DbcMessage micro_floats Payload). HasFields fresh_fields x.signals)
        (only (291 == id) message m there) fresh-HasFields)

abbrev pub reads : List (ReadResult micro_floats Payload)
reads =
    again
    ∷ bytes 16 (record { can_id = 291; len = 8; payload = (7_000_000, 1) })
    ∷ bytes 4 frame
    ∷ failed
    ∷ bytes 16 (record { can_id = 5; len = 8; payload = (0, 0) })
    ∷ []

abbrev keep :
    ProtoMessage micro_floats Payload
    → List (ProtoMessage micro_floats Payload)
    → List (ProtoMessage micro_floats Payload)
keep msg kept = msg ∷ kept

receive_handler-Received_example :
    (msgs : List (ProtoMessage micro_floats Payload)) × Received pool tables reads msgs
    × (receive_handler micro_floats Payload pool tables keep reads []
        ≡ some (foldl (λ u m. keep m u) [] msgs))
receive_handler-Received_example =
    receive_handler-Received pool tables keep tables-IsCovered reads []
