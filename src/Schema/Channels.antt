-- ===== src/Schema/Channels.antt =====
-- The channels of the websocket server, one for each message type of the files (the end of the
-- constructor of `FoxgloveServer`), the live stream over them, and the channels of a log file (the
-- loops of `MCAPLogger::open_new_mcap`).
use Prim.Native.String.{String}
use drivebrain_software.Base.{ℕ, suc, List, [], ◌∷◌, ◌++◌, Option, none, some, Dict, lookup, insert}
use drivebrain_software.Schema.Defs.{FilePool, MessageType, get_pb_descriptors, serialize_fd_set}

-- `_name_to_id_map[name]`: a name that is not there enters with 0.
unfoldable pub at_name : String → Dict ℕ → Dict ℕ × ℕ
at_name name ids = elim (lookup name ids) [ none ↦ (insert name 0 ids, 0) | some i ↦ (ids, i) ]

-- What `broadcastMessage` is given.
pub record Broadcast : Type 0 where
  pub channel : ℕ
  pub time : ℕ
  pub payload : String

-- `send_live_telem_msg`, for a message by the name of its type and its bytes.
unfoldable pub send_live_telem_msg :
    (now : ℕ) (type_name bytes : String) → Dict ℕ → Dict ℕ × Broadcast
unfolding at_name
send_live_telem_msg now type_name bytes ids =
    let (ids', msg_chan_id) = at_name type_name ids in
    (ids', record { channel = msg_chan_id; time = now; payload = bytes })

module _ (pool : FilePool) (fuel : ℕ) where
  open pool use {File, message_types}

  -- `foxglove::ChannelWithoutId`. The schema is the set of files, before its encoding in base 64.
  pub record ServerChannel : Type 0 where
    pub topic : String
    pub encoding : String
    pub schema_name : String
    pub schema : Option (List File)

  -- The variables of the constructor's loops.
  pub record Channels : Type 0 where
    pub channels : List ServerChannel
    pub name_to_id_map : Dict ℕ
    pub running_index : ℕ

  unfoldable pub add_channel : File → MessageType → Channels → Channels
  add_channel file message_descriptor c = record {
    channels =
        c.channels
        ++ (record {
          topic = message_descriptor.name;
          encoding = "protobuf";
          schema_name = message_descriptor.full_name;
          schema = serialize_fd_set pool fuel file;
        }
            ∷ []);
    name_to_id_map = insert message_descriptor.name c.running_index c.name_to_id_map;
    running_index = suc c.running_index;
  }

  unfoldable pub add_message_types : File → List MessageType → Channels → Channels
  unfolding add_channel
  add_message_types file [] c = c
  add_message_types file (m ∷ ms) c = add_message_types file ms (add_channel file m c)

  unfoldable pub add_file_channels : List File → Channels → Channels
  unfolding add_message_types
  add_file_channels [] c = c
  add_file_channels (f ∷ fs) c = add_file_channels fs (add_message_types f (message_types f) c)

  -- The channels for the files `proto_names`, as they are given to `addChannels`.
  unfoldable pub server_channels : List String → Channels
  unfolding add_file_channels get_pb_descriptors
  server_channels proto_names =
      add_file_channels (get_pb_descriptors pool proto_names)
        (record { channels = []; name_to_id_map = []; running_index = 1 })
