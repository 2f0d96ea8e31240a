-- ===== src/Feed/Defs.antt =====
-- `core::log` of drivebrain_core/include/Telemetry.hpp, over the recorder and the live server, and the
-- two calls with which each driver hands a message on. `M` is a message; its descriptor's name, its
-- bytes and its fields are parameters, since the message classes are generated.
use drivebrain_software.Base.{ℕ, suc, String, List, [], ◌∷◌, ◌++◌, Dict}
use drivebrain_software.Floats.{Floats}
use drivebrain_software.Logger.Defs.{RawMessage, Logger, log_msg}
use drivebrain_software.Schema.Channels.{Broadcast, send_live_telem_msg}
use drivebrain_software.Tracker.Messages.{Message}
use drivebrain_software.Tracker.Defs.{Tracker, handle_receive_protobuf_message}

-- What the clocks say when a message is logged, sent to the clients, and handled by the tracker.
pub record Times : Type 0 where
  pub logged : ℕ
  pub sent : ℕ
  pub heard : ℕ

module _ (n : Floats) {M : Type 0} (name bytes : M → String) (fields : M → Message n)
    (clock : ℕ → Times) where
  -- The three singletons that a message reaches, and how many messages there were: `clock` gives the
  -- times of each.
  pub record System : Type 0 where
    pub logger : Logger
    pub name_to_id_map : Dict ℕ
    pub broadcasts : List Broadcast
    pub tracker : Tracker n
    pub taken : ℕ

  -- The message that `log_msg` puts into the buffer.
  unfoldable pub raw_message : ℕ → M → RawMessage
  raw_message now m = record { log_time = now; serialized_data = bytes m; message_name = name m }

  -- `core::log`
  unfoldable pub log : Times → M → System → System
  unfolding raw_message
  log at m s =
      let (ids, broadcast) = send_live_telem_msg (at.sent) (name m) (bytes m) s.name_to_id_map in
      record s {
        logger = log_msg (raw_message (at.logged) m) s.logger;
        name_to_id_map = ids;
        broadcasts = s.broadcasts ++ (broadcast ∷ []);
      }

  -- `core::log(msg)`, then `handle_receive_protobuf_message(msg)`
  unfoldable pub log_proto_message : M → System → System
  unfolding log
  log_proto_message m s =
      let at = clock s.taken in
      let logged = log at m s in
      record logged {
        tracker = handle_receive_protobuf_message n (at.heard) (fields m) s.tracker;
        taken = suc s.taken;
      }
