-- ===== src/Can/Defs.antt =====
-- The class `CANComms`. A DBC message and its signals are what the DBC library gives; `D` is the
-- payload of a frame, on which only the signals' own functions work. A protobuf message is its
-- type's name with the values of its fields. A null pointer that is dereferenced is `none`.
use Prim.Native.String.{◌++◌}
use drivebrain_software.Base.{
  ℕ, suc, ◌%◌, ◌^◌, Bool, true, false, not, String, List, [], ◌∷◌, Option, none, some, ◌==◌,
  if◌then◌else◌, Dict, lookup, insert,
}
use drivebrain_software.Base.Int.{ℤ, pos, negsuc}
use drivebrain_software.Base.Text.{to_lowercase}
use drivebrain_software.Floats.{Floats, nought}

-- `std::unordered_map::insert`: a key that is there keeps its value.
unfoldable pub insert_new : {V : Type 0} → String → V → Dict V → Dict V
insert_new key value dict = elim (lookup key dict) [ some _ ↦ dict | none ↦ insert key value dict ]

-- Maps from ids.
unfoldable pub find_id : {V : Type 0} → ℕ → List (ℕ × V) → Option V
find_id id [] = none
find_id id ((key, value) ∷ rest) = if key == id then some value else find_id id rest

unfoldable pub insert_id : {V : Type 0} → ℕ → V → List (ℕ × V) → List (ℕ × V)
insert_id id value table = elim (find_id id table) [ some _ ↦ table | none ↦ (id, value) ∷ table ]

module _ (n : Floats) (D : Type 0) where
  open n use {Float, Double, double, float_to_double, double_to_float}

  -- `dbcppp::ISignal`; `is_mux_value` is `MultiplexerIndicator() == MuxValue`.
  pub record Signal : Type 0 where
    pub name : String
    pub is_mux_value : Bool
    pub switch_value : ℕ
    pub decode : D → ℕ
    pub encode : ℕ → D → D
    pub raw_to_phys : ℕ → Double
    pub phys_to_raw : Double → ℕ

  -- `dbcppp::IMessage`
  pub record DbcMessage : Type 0 where
    pub id : ℕ
    pub message_name : String
    pub message_size : ℕ
    pub signals : List Signal
    pub mux_signal : Option Signal

  -- A field's value, by the field's type. The types `sint32` and `sfixed32` have the C++ type of
  -- `int32`, by which a field is encoded, and are not named where one is decoded. Types that are
  -- treated alike in both places share a constructor.
  pub data Value : Type 0 where
    int32_value : ℤ → Value
    sint32_value : ℤ → Value
    int64_value : ℤ → Value
    uint32_value : ℕ → Value
    uint64_value : ℕ → Value
    double_value : Double → Value
    float_value : Float → Value
    bool_value : Bool → Value
    enum_value : ℤ → Value
    other_value : Value

  pub record ProtoMessage : Type 0 where
    pub type_name : String
    pub fields : Dict Value

  pub record CanFrame : Type 0 where
    pub can_id : ℕ
    pub len : ℕ
    pub payload : D

  -- `_messages` and `_names_to_can_id`
  pub record Tables : Type 0 where
    pub messages : List (ℕ × DbcMessage)
    pub names_to_can_id : Dict ℕ

  -- The loop over the DBC file's messages in `_init`.
  unfoldable pub add_messages : List DbcMessage → Tables → Tables
  unfolding insert_new insert_id
  add_messages [] t = t
  add_messages (m ∷ ms) t = add_messages ms (record {
    messages = insert_id m.id m t.messages;
    names_to_can_id = insert_new (to_lowercase m.message_name) m.id t.names_to_can_id;
  })

  unfoldable pub init_tables : List DbcMessage → Tables
  unfolding add_messages
  init_tables ms = add_messages ms (record { messages = []; names_to_can_id = [] })

  -- Whether `_decode_can_frame` reads a signal.
  unfoldable pub is_present : DbcMessage → D → Signal → Bool
  is_present m payload sig = if not sig.is_mux_value then true else elim m.mux_signal [
    | none ↦ false
    | some mux ↦ Signal.decode mux payload == sig.switch_value
  ]

  -- The switch on the field's type; a type that it does not name keeps the field.
  unfoldable pub converted : Double → Value → Value
  converted x (enum_value _) = enum_value (double.to_int x)
  converted x (float_value _) = float_value (double_to_float x)
  converted x (bool_value _) = bool_value (not (double.eq x (nought double)))
  converted x (int32_value _) = int32_value (double.to_int x)
  converted x old = old

  -- The loop of `_decode_can_frame`: a signal that is no field's name is a null pointer.
  unfoldable pub decode_signals : DbcMessage → D → List Signal → Dict Value → Option (Dict Value)
  unfolding is_present converted
  decode_signals m payload [] fields = some fields
  decode_signals m payload (sig ∷ sigs) fields =
      let skipped = decode_signals m payload sigs fields in
      if is_present m payload sig
      then elim (lookup sig.name fields) [
        | none ↦ none
        | some old ↦
            decode_signals m payload sigs
              (insert sig.name (converted (sig.raw_to_phys (sig.decode payload)) old) fields)
      ]
      else skipped

  -- `_decode_can_frame`; `pool` gives a new message's fields by its full name. The inner option is
  -- the source's. The lookup with `[]` leaves a null pointer for an unknown id, which reads as
  -- unknown again.
  unfoldable pub decode_can_frame :
      (String → Option (Dict Value)) → Tables → CanFrame → Option (Option ProtoMessage)
  unfolding decode_signals
  decode_can_frame pool t frame = elim (find_id frame.can_id t.messages) [
    | none ↦ some none
    | some m ↦
        let type_name = "hytech." ++ to_lowercase (DbcMessage.message_name m) in
        elim (pool type_name) [
          | none ↦ some none
          | some fields ↦ elim (decode_signals m frame.payload (DbcMessage.signals m) fields) [
            | none ↦ none
            | some fields' ↦ some (some (record { type_name = type_name; fields = fields' }))
          ]
        ]
  ]

  -- The switch of `_encode_can_frame`: the number that is encoded, if any.
  unfoldable pub number_of : Value → Option Double
  number_of (int32_value i) = some (double.of_int i)
  number_of (sint32_value i) = some (double.of_int i)
  number_of (int64_value i) = some (double.of_int i)
  number_of (uint32_value u) = some (double.of_int (pos u))
  number_of (uint64_value u) = some (double.of_int (pos u))
  number_of (double_value x) = some x
  number_of (float_value x) = some (float_to_double x)
  number_of (bool_value b) = some (double.of_int (if b then pos 1 else pos 0))
  number_of _ = none

  -- One signal: a type that the switch does not name leaves the frame as it is.
  unfoldable pub encode_number : Signal → Option Double → D → D
  encode_number sig none payload = payload
  encode_number sig (some x) payload = sig.encode (sig.phys_to_raw x) payload

  -- The loop of `_encode_can_frame`.
  unfoldable pub encode_signals : Dict Value → List Signal → D → Option D
  unfolding number_of encode_number
  encode_signals fields [] payload = some payload
  encode_signals fields (sig ∷ sigs) payload = elim (lookup sig.name fields) [
    | none ↦ none
    | some value ↦ encode_signals fields sigs (encode_number sig (number_of value) payload)
  ]

  -- `_encode_can_frame`: `short_name` is the type's name after the last dot, and `frame` the frame
  -- that is filled in. The result is 0 or `-EINVAL`.
  unfoldable pub encode_can_frame : Tables → String → Dict Value → CanFrame → Option (CanFrame × ℤ)
  unfolding encode_signals
  encode_can_frame t short_name fields frame =
      elim (lookup (to_lowercase short_name) t.names_to_can_id) [
        | none ↦ some (frame, negsuc 21)
        | some id ↦ elim (find_id id t.messages) [
          | none ↦ none
          | some m ↦ elim (encode_signals fields (DbcMessage.signals m) frame.payload) [
            | none ↦ none
            | some payload ↦
                some (
                  record { can_id = id; len = DbcMessage.message_size m; payload = payload },
                  pos 0,
                )
          ]
        ]
      ]

-- What the system call `write` does: the queue is full, another error, or a number of bytes.
pub data WriteResult : Type 0 where
  again : WriteResult
  failed : WriteResult
  wrote : ℕ → WriteResult

pub record Counters : Type 0 where
  pub tx_drop_count : ℕ
  pub tx_error_count : ℕ

-- The end of `send_message`, after a frame was encoded.
unfoldable pub count_write : WriteResult → Counters → Counters
count_write again c = record c { tx_drop_count = suc c.tx_drop_count % 2 ^ 64 }
count_write failed c = record c { tx_error_count = suc c.tx_error_count % 2 ^ 64 }
count_write (wrote bytes) c = c
