-- ===== src/Can/Driver.antt =====
-- The class `CANComms` around its coding: `_init`, `send_message` and `_receive_handler`, in the
-- build that has a CAN bus (`HOOTL_ENABLED` not set). The system calls are inputs.
use drivebrain_software.Base.{
  ℕ, Bool, true, false, String, List, [], ◌∷◌, ◌++◌, Option, none, some, Dict, ltb, if◌then◌else◌,
}
use drivebrain_software.Base.Int.{ℤ, pos, negsuc, ltb_ℤ}
use drivebrain_software.Floats.{Floats}
use drivebrain_software.Can.Defs.{
  DbcMessage, Value, ProtoMessage, CanFrame, Tables, add_messages, encode_can_frame,
  decode_can_frame, WriteResult, Counters, count_write,
}

-- `sizeof(struct can_frame)`
abbrev pub frame_size : ℕ
frame_size = 16

module _ (n : Floats) (D : Type 0) where
  -- Which of the calls in `_init` succeed; `dbc` is what the file is parsed to, if it could be
  -- opened, and `none` inside if it could not be parsed.
  pub record Setup : Type 0 where
    pub socket : Bool
    pub get_index : Bool
    pub bind : Bool
    pub set_non_blocking : Bool
    pub dbc : Option (Option (List (DbcMessage n D)))

  pub record Driver : Type 0 where
    pub socket_open : Bool
    pub tables : Tables n D
    pub has_reader : Bool

  -- Each error after the first closes the socket.
  abbrev fails : Driver → Driver × ℤ
  fails d = (record d { socket_open = false }, negsuc 0)

  -- The last part of `_init`, from the file on.
  unfoldable pub init_tables_from : Option (Option (List (DbcMessage n D))) → Driver → Driver × ℤ
  init_tables_from none d = fails d
  init_tables_from (some none) d = fails d
  init_tables_from (some (some messages)) d =
      (record d { tables = add_messages n D messages d.tables; has_reader = true }, pos 0)

  -- `_init`
  unfoldable pub init : Setup → Driver → Driver × ℤ
  unfolding init_tables_from
  init c d =
      if c.socket
      then (let opened = record d { socket_open = true } in
          if c.get_index
          then (if c.bind
              then (if c.set_non_blocking then init_tables_from c.dbc opened else fails opened)
              else fails opened)
          else fails opened)
      else (d, negsuc 0)

  -- The constructor; `none` is its exception.
  unfoldable pub construct : Setup → Option Driver
  unfolding init
  construct c =
      let (d, code) = init c (record {
        socket_open = false;
        tables = record { messages = []; names_to_can_id = [] };
        has_reader = false;
      }) in
      if ltb_ℤ code (pos 0) then none else some d

  -- What the bus was given and the counters. `none` is a null pointer that is dereferenced.
  pub record Output : Type 0 where
    pub frames : List (CanFrame n D)
    pub counters : Counters

  -- `send_message`, with what `write` does. A frame that is not encoded is not written; `empty` is
  -- the frame `can_frame frame{}`.
  unfoldable pub send_message :
      Tables n D
      → (empty : CanFrame n D) → String
      → Dict (Value n D)
      → WriteResult
      → Output
      → Option Output
  unfolding encode_can_frame count_write
  send_message t empty short_name fields result out =
      elim (encode_can_frame n D t short_name fields empty) [
        | none ↦ none
        | some (frame, code) ↦
            if ltb_ℤ code (pos 0)
            then some out
            else some (record {
              frames = out.frames ++ (frame ∷ []);
              counters = count_write result out.counters;
            })
      ]

  -- What `read` brings: nothing yet, an error, or a number of bytes in `_frame`.
  pub data ReadResult : Type 0 where
    again : ReadResult
    failed : ReadResult
    bytes : ℕ → CanFrame n D → ReadResult

  module _ {S : Type 0} (pool : String → Option (Dict (Value n D))) (t : Tables n D)
      (consume : ProtoMessage n D → S → S) where
    -- A body of the loop in `_receive_handler`. `consume` is `core::log` and the state tracker.
    unfoldable pub receive : ReadResult → S → Option S
    unfolding decode_can_frame
    receive again s = some s
    receive failed s = some s
    receive (bytes count frame) s =
        if ltb count frame_size then some s else elim (decode_can_frame n D pool t frame) [
          | none ↦ none
          | some none ↦ some s
          | some (some msg) ↦ some (consume msg s)
        ]

    -- The loop, over all that is ever read.
    unfoldable pub receive_handler : List ReadResult → S → Option S
    unfolding receive
    receive_handler [] s = some s
    receive_handler (r ∷ rs) s = elim (receive r s) [
      | none ↦ none
      | some s' ↦ receive_handler rs s'
    ]
