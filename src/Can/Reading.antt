-- ===== src/Can/Reading.antt =====
-- The reader of a CAN driver goes on, whatever is on the bus.
use mathlib.Core.List.{foldl}
use mathlib.Core.Option.{some-injective, none-ne-some}
use Prim.Native.String.{◌++◌}
use drivebrain_software.Base.{
  ℕ, ◌≡◌, refl, sym, subst, Bool, ◌∙◌, arith, ◌⊎◌, inl, inr, true, false, String, List, [], ◌∷◌,
  Option, none, some, Dict, lookup, ◌==◌, insert, lookup-insert, All, ltb, Bool-cases, Option-cases,
  str_eq, ◌≤◌, ◌<◌,
}
use drivebrain_software.Base.Text.{to_lowercase}
use drivebrain_software.Floats.{Floats}
use drivebrain_software.Can.Defs.{
  Signal, DbcMessage, Value, ProtoMessage, CanFrame, Tables, find_id, decode_signals, is_present,
  decode_can_frame,
}
use drivebrain_software.Can.Decoding.{read_value, decode_next, decode_skip}
use drivebrain_software.Can.Roundtrip.{decode_can_frame-decode_signals}
use drivebrain_software.Can.Driver.{
  ReadResult, again, failed, bytes, frame_size, receive, receive_handler,
}

module _ {n : Floats} {D : Type 0} where
  -- The fields of a message have one for each signal.
  abbrev pub HasFields : Dict (Value n D) → List (Signal n D) → Type 0
  HasFields fields sigs =
      All (λ (sig : Signal n D). (v : Value n D) × (lookup sig.name fields ≡ some v)) sigs

  HasFields-insert :
      (sigs : List (Signal n D)) (name : String) (v : Value n D) (fields : Dict (Value n D))
      → HasFields fields sigs
      → HasFields (insert name v fields) sigs
  HasFields-insert [] name v fields has = tt
  HasFields-insert (sig ∷ sigs) name v fields ((w, there), has) =
      (found (Bool-cases (str_eq name sig.name)), HasFields-insert sigs name v fields has)
    where
      found :
          (str_eq name sig.name ≡ true) ⊎ (str_eq name sig.name ≡ false)
          → (u : Value n D) × (lookup sig.name (insert name v fields) ≡ some u)
      found (inl same) = (v, lookup-insert name sig.name v fields ∙ rw same)
      found (inr other) = (w, lookup-insert name sig.name v fields ∙ rw other there)

module _ {n : Floats} {D : Type 0} (pool : String → Option (Dict (Value n D)))
    (t : Tables n D) where
  -- The descriptor that is found for a message of the DBC file has a field for each of its signals.
  abbrev pub IsCovered : Type 0
  IsCovered =
      (id : ℕ) (m : DbcMessage n D) (fields : Dict (Value n D))
      → find_id id t.messages ≡ some m
      → pool ("hytech." ++ to_lowercase (DbcMessage.message_name m)) ≡ some fields
      → HasFields fields (DbcMessage.signals m)

  -- A signal that a frame carries: any that is not multiplexed, and one that is if the message's
  -- multiplexer has the signal's value in the frame.
  abbrev pub IsCarried : DbcMessage n D → D → Signal n D → Type 0
  IsCarried m payload sig =
      (sig.is_mux_value ≡ false)
      ⊎ ((mux : Signal n D) × (DbcMessage.mux_signal m ≡ some mux)
          × (mux.decode payload ≡ sig.switch_value))

  -- The fields that a frame's payload gives a message: each signal that it carries, in order, writes
  -- its physical value to the field of its name, as the field's type has it.
  pub data Filled (m : DbcMessage n D) (payload : D)
      : List (Signal n D) → Dict (Value n D) → Dict (Value n D) → Type 0 where
    no_more : {fields : Dict (Value n D)} → Filled m payload [] fields fields
    writes :
        {sig : Signal n D} {sigs : List (Signal n D)} {fields after : Dict (Value n D)}
        {old : Value n D}
        → IsCarried m payload sig
        → lookup sig.name fields ≡ some old
        → Filled m payload sigs (insert sig.name (read_value payload sig old) fields) after
        → Filled m payload (sig ∷ sigs) fields after
    leaves :
        {sig : Signal n D} {sigs : List (Signal n D)} {fields after : Dict (Value n D)}
        → ¬ IsCarried m payload sig
        → Filled m payload sigs fields after
        → Filled m payload (sig ∷ sigs) fields after

  -- The message of a complete frame: its id is in the file, the message type of that name is in the
  -- pool, and the frame has filled a new message of the type.
  pub record Means (frame : CanFrame n D) (msg : ProtoMessage n D) : Type 0 where
    pub dbc_message : DbcMessage n D
    pub new_fields : Dict (Value n D)
    pub has_id : find_id frame.can_id t.messages ≡ some dbc_message
    pub named : msg.type_name ≡ "hytech." ++ to_lowercase (DbcMessage.message_name dbc_message)
    pub has_type : pool msg.type_name ≡ some new_fields
    pub filled :
        Filled dbc_message frame.payload (DbcMessage.signals dbc_message) new_fields msg.fields

  -- The id is not in the file, or its message's type not in the pool.
  abbrev pub IsUnknown : CanFrame n D → Type 0
  IsUnknown frame =
      (find_id frame.can_id t.messages ≡ none)
      ⊎ ((m : DbcMessage n D) × (find_id frame.can_id t.messages ≡ some m)
          × (pool ("hytech." ++ to_lowercase (DbcMessage.message_name m)) ≡ none))

  -- What is made of the reads: the messages of the complete frames that are known, in order.
  pub data Received : List (ReadResult n D) → List (ProtoMessage n D) → Type 0 where
    none_left : Received [] []
    waits :
        {rs : List (ReadResult n D)} {msgs : List (ProtoMessage n D)}
        → Received rs msgs
        → Received (again ∷ rs) msgs
    fails :
        {rs : List (ReadResult n D)} {msgs : List (ProtoMessage n D)}
        → Received rs msgs
        → Received (failed ∷ rs) msgs
    too_short :
        {count : ℕ} {frame : CanFrame n D} {rs : List (ReadResult n D)}
        {msgs : List (ProtoMessage n D)}
        → count < frame_size
        → Received rs msgs
        → Received (bytes count frame ∷ rs) msgs
    unknown :
        {count : ℕ} {frame : CanFrame n D} {rs : List (ReadResult n D)}
        {msgs : List (ProtoMessage n D)}
        → frame_size ≤ count
        → IsUnknown frame
        → Received rs msgs
        → Received (bytes count frame ∷ rs) msgs
    decoded :
        {count : ℕ} {frame : CanFrame n D} {msg : ProtoMessage n D} {rs : List (ReadResult n D)}
        {msgs : List (ProtoMessage n D)}
        → frame_size ≤ count
        → Means frame msg
        → Received rs msgs
        → Received (bytes count frame ∷ rs) (msg ∷ msgs)

  both : {b : Bool} → b ≡ true → b ≡ false → ⊥
  both on off = cc

  differ : (a b : ℕ) → (a == b) ≡ false → a ≡ b → ⊥
  differ a b other same = ground (arith, other, same)

  is_present-IsCarried :
      (m : DbcMessage n D) (payload : D) (sig : Signal n D)
      → ((is_present n D m payload sig ≡ true) × IsCarried m payload sig)
        ⊎ ((is_present n D m payload sig ≡ false) × ¬ IsCarried m payload sig)
  unfolding is_present
  is_present-IsCarried m payload sig = elim (Bool-cases sig.is_mux_value) [
    | inl multiplexed ↦ elim (Option-cases (DbcMessage.mux_signal m)) [
      | inl no_mux ↦ inr (
        rw (multiplexed, no_mux) refl,
        λ c. elim c [
          | inl plain ↦ both multiplexed plain
          | inr (mux, there, e) ↦ none-ne-some mux (sym no_mux ∙ there)
        ],
      )
      | inr (mux, there) ↦ elim (Bool-cases (mux.decode payload == sig.switch_value)) [
        | inl same ↦ inl (rw (multiplexed, there) same, inr (mux, there, ground (arith, same)))
        | inr other ↦ inr (
          rw (multiplexed, there) other,
          λ c. elim c [
            | inl plain ↦ both multiplexed plain
            | inr (mux', there', e) ↦ differ (mux.decode payload) sig.switch_value other (
                subst (λ (x : Signal n D). x.decode payload ≡ sig.switch_value)
                  (some-injective mux' mux (sym there' ∙ there)) e)
          ],
        )
      ]
    ]
    | inr plain ↦ inl (rw plain, inl plain)
  ]

  decode_signals-Filled :
      (m : DbcMessage n D) (payload : D) (sigs : List (Signal n D)) (fields : Dict (Value n D))
      → HasFields fields sigs
      → (after : Dict (Value n D)) × (decode_signals n D m payload sigs fields ≡ some after)
        × Filled m payload sigs fields after
  decode_signals-Filled m payload [] fields has = (fields, unfold decode_signals in refl, no_more)
  decode_signals-Filled m payload (sig ∷ sigs) fields ((old, there), has) =
      elim (is_present-IsCarried m payload sig) [
        | inl (present, carried) ↦
            let v = read_value payload sig old in
            let (after, e, filled) =
              decode_signals-Filled m payload sigs (insert sig.name v fields)
                (HasFields-insert sigs sig.name v fields has) in
            (
              after,
              decode_next m payload sig sigs fields old present there ∙ e,
              writes carried there filled,
            )
        | inr (absent, not_carried) ↦
            let (after, e, filled) = decode_signals-Filled m payload sigs fields has in
            (after, decode_skip m payload sig sigs fields absent ∙ e, leaves not_carried filled)
      ]

  -- A frame is unknown, or is decoded to what it means.
  abbrev Decoded : CanFrame n D → Type 0
  Decoded frame =
      ((decode_can_frame n D pool t frame ≡ some none) × IsUnknown frame)
      ⊎ ((msg : ProtoMessage n D) × (decode_can_frame n D pool t frame ≡ some (some msg))
          × Means frame msg)

  decode_can_frame-Decoded : (frame : CanFrame n D) → IsCovered → Decoded frame
  unfolding decode_can_frame
  decode_can_frame-Decoded frame covered = elim (Option-cases (find_id frame.can_id t.messages)) [
    | inl missing ↦ inl (rw (missing, decode_can_frame), inl missing)
    | inr (m, there) ↦
        elim (Option-cases (pool ("hytech." ++ to_lowercase (DbcMessage.message_name m)))) [
          | inl no_type ↦ inl (rw (there, no_type, decode_can_frame), inr (m, there, no_type))
          | inr (fields, type) ↦
              let (after, e, filled) =
                decode_signals-Filled m frame.payload (DbcMessage.signals m) fields
                  (covered frame.can_id m fields there type) in
              inr (
                record {
                  type_name = "hytech." ++ to_lowercase (DbcMessage.message_name m);
                  fields = after;
                },
                decode_can_frame-decode_signals pool t frame m fields after there type e,
                record {
                  dbc_message = m;
                  new_fields = fields;
                  has_id = there;
                  named = refl;
                  has_type = type;
                  filled = filled;
                },
              )
        ]
  ]

  lt-or-le : (a b : ℕ) → ((ltb a b ≡ true) × (a < b)) ⊎ ((ltb a b ≡ false) × (b ≤ a))
  lt-or-le a b = elim (Bool-cases (ltb a b)) [
    | inl less ↦ inl (less, ground (arith, less))
    | inr not_less ↦ inr (not_less, ground (arith, not_less))
  ]

  module _ {S : Type 0} (consume : ProtoMessage n D → S → S) where
    abbrev handler : List (ReadResult n D) → S → Option S
    handler = receive_handler n D pool t consume

    short_frame :
        (count : ℕ) (frame : CanFrame n D) (rs : List (ReadResult n D)) (s : S)
        → ltb count frame_size ≡ true
        → handler (bytes count frame ∷ rs) s ≡ handler rs s
    unfolding receive_handler receive
    short_frame count frame rs s short = ground (arith, short)

    unknown_frame :
        (count : ℕ) (frame : CanFrame n D) (rs : List (ReadResult n D)) (s : S)
        → ltb count frame_size ≡ false
        → decode_can_frame n D pool t frame ≡ some none
        → handler (bytes count frame ∷ rs) s ≡ handler rs s
    unfolding receive_handler receive
    unknown_frame count frame rs s full e = ground (arith, full, e)

    known_frame :
        (count : ℕ) (frame : CanFrame n D) (msg : ProtoMessage n D) (rs : List (ReadResult n D))
        (s : S)
        → ltb count frame_size ≡ false
        → decode_can_frame n D pool t frame ≡ some (some msg)
        → handler (bytes count frame ∷ rs) s ≡ handler rs (consume msg s)
    unfolding receive_handler receive
    known_frame count frame msg rs s full e = ground (arith, full, e)

    -- If the descriptors have a field for each signal of the DBC file's messages, then the reader
    -- goes on, whatever is on the bus, and hands on exactly the messages of the complete frames whose
    -- id is in the file and whose type is in the pool, each once and in order. A read with nothing to
    -- read, an error, a frame that is cut off, an unknown id and an unknown type are passed over.
    pub receive_handler-Received :
        IsCovered
        → (rs : List (ReadResult n D)) (s : S)
        → (msgs : List (ProtoMessage n D)) × Received rs msgs
          × (receive_handler n D pool t consume rs s ≡ some (foldl (λ u m. consume m u) s msgs))
    unfolding receive_handler receive
    receive_handler-Received covered [] s = ([], none_left, refl)
    receive_handler-Received covered (again ∷ rs) s =
        let (msgs, walk, e) = receive_handler-Received covered rs s in (msgs, waits walk, e)
    receive_handler-Received covered (failed ∷ rs) s =
        let (msgs, walk, e) = receive_handler-Received covered rs s in (msgs, fails walk, e)
    receive_handler-Received covered (bytes count frame ∷ rs) s = elim (lt-or-le count frame_size) [
      | inl (short, less) ↦
          let (msgs, walk, e) = receive_handler-Received covered rs s in
          (msgs, too_short less walk, short_frame count frame rs s short ∙ e)
      | inr (full, enough) ↦ elim (decode_can_frame-Decoded frame covered) [
        | inl (decodes, is_unknown) ↦
            let (msgs, walk, e) = receive_handler-Received covered rs s in
            (msgs, unknown enough is_unknown walk, unknown_frame count frame rs s full decodes ∙ e)
        | inr (msg, decodes, means) ↦
            let (msgs, walk, e) = receive_handler-Received covered rs (consume msg s) in
            (
              msg ∷ msgs,
              decoded enough means walk,
              known_frame count frame msg rs s full decodes ∙ e,
            )
      ]
    ]
