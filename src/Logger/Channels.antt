-- ===== src/Logger/Channels.antt =====
-- The loops of `open_new_mcap`: a schema and a channel for each message type of the files, and one
-- for the parameters. The ids are the MCAP writer's: `number k` is the id of the k-th channel that
-- is added to it.
use drivebrain_software.Base.{
  ℕ, suc, ◌≡◌, refl, ap, ◌∙◌, arith, ◌⊎◌, inl, inr, true, false, String, List, [], ◌∷◌, ◌++◌,
  Option, some, Dict, lookup, insert, lookup-insert, map, get_elem?, str_eq, eq_iff, Bool-cases,
  ◌+◌,
}
use drivebrain_software.Schema.Defs.{
  FilePool, MessageType, contains, get_pb_descriptors, serialize_fd_set,
}
use drivebrain_software.Logger.Defs.{
  Logger, channel_id, add_channels, open_named_mcap, log_params, log_msg,
}

channel_id-some :
    (ids : Dict ℕ) (name : String) (i : ℕ) → lookup name ids ≡ some i → channel_id ids name ≡ i
unfolding channel_id
channel_id-some ids name i found = rw (found, channel_id)

channel_id_same :
    (ids before : Dict ℕ) (name : String)
    → lookup name ids ≡ lookup name before
    → channel_id ids name ≡ channel_id before name
unfolding channel_id
channel_id_same ids before name same = rw (same, channel_id)

module _ (pool : FilePool) (fuel : ℕ) where
  open pool use {File, message_types}

  -- The content of a schema: the files of a message, or the text of a JSON schema.
  pub data SchemaData : Type 0 where
    file_set : Option (List File) → SchemaData
    json_text : String → SchemaData

  -- `mcap::Channel` with its `mcap::Schema`
  pub record McapChannel : Type 0 where
    pub topic : String
    pub message_encoding : String
    pub schema_name : String
    pub schema_encoding : String
    pub schema : SchemaData

  -- The inner loop, over the message types of a file.
  unfoldable pub file_channels : File → List MessageType → List McapChannel
  file_channels file [] = []
  file_channels file (m ∷ ms) =
      record {
        topic = m.name;
        message_encoding = "protobuf";
        schema_name = m.full_name;
        schema_encoding = "protobuf";
        schema = file_set (serialize_fd_set pool fuel file);
      }
      ∷ file_channels file ms

  unfoldable pub all_file_channels : List File → List McapChannel
  unfolding file_channels
  all_file_channels [] = []
  all_file_channels (f ∷ fs) = file_channels f (message_types f) ++ all_file_channels fs

  -- All channels, in the order in which they are added.
  unfoldable pub mcap_channels : List String → String → List McapChannel
  unfolding all_file_channels
  mcap_channels proto_names params_schema =
      all_file_channels (get_pb_descriptors pool proto_names)
      ++ (record {
        topic = "drivebrain_configuration";
        message_encoding = "json";
        schema_name = "drivebrain_configuration";
        schema_encoding = "jsonschema";
        schema = json_text params_schema;
      }
          ∷ [])

  -- The topics with the ids that the writer gives them.
  unfoldable pub with_ids : (ℕ → ℕ) → List McapChannel → ℕ → List (String × ℕ)
  with_ids number [] k = []
  with_ids number (c ∷ cs) k = (c.topic, number k) ∷ with_ids number cs (suc k)

  abbrev pub topics : List McapChannel → List String
  topics = map (λ (c : McapChannel). c.topic)

  -- What a look-up finds: the id of a channel with the name as its topic, or what was there before,
  -- if no channel has it.
  abbrev Enters : (ℕ → ℕ) → List McapChannel → ℕ → String → Dict ℕ → Dict ℕ → Type 0
  Enters number cs start name before after =
      ((k : ℕ) × (c : McapChannel) × (get_elem? cs k ≡ some c)
        × (c.topic ≡ name)
        × (lookup name after ≡ some (number (start + k))))
      ⊎ ((contains name (topics cs) ≡ false) × (lookup name after ≡ lookup name before))

  add_channels-Enters :
      (number : ℕ → ℕ) (cs : List McapChannel) (start : ℕ) (name : String) (ids : Dict ℕ)
      → Enters number cs start name ids (add_channels (with_ids number cs start) ids)
  unfolding with_ids add_channels contains
  add_channels-Enters number [] start name ids = inr (refl, refl)
  add_channels-Enters number (c ∷ cs) start name ids =
      elim (add_channels-Enters number cs (suc start) name (insert c.topic (number start) ids)) [
        | inl (k, d, there, named, found) ↦
            inl (suc k, d, there, named, found ∙ ap (λ i. some (number i)) (omega arith))
        | inr (absent, kept) ↦ elim (Bool-cases (str_eq c.topic name)) [
          | inl same ↦ inl (
            0,
            c,
            refl,
            (eq_iff c.topic name).0 same,
            kept
                ∙ lookup-insert c.topic name (number start) ids
                ∙ rw same (ap (λ i. some (number i)) (omega arith)),
          )
          | inr other ↦ inr (
            ground (arith, other, absent),
            kept ∙ lookup-insert c.topic name (number start) ids ∙ rw other,
          )
        ]
      ]

  -- After a log file is opened, with any table before, a message is written under the id that the
  -- writer gave to a channel whose topic is the name of the message's type, if a message type of the
  -- files has this name or it is that of the parameters. Any other name keeps what the table had.
  pub open_named_mcap-channel_id :
      (number : ℕ → ℕ) (proto_names : List String) (params_schema file_name : String) (now : ℕ)
      (params name : String) (s : Logger)
      → let cs = mcap_channels proto_names params_schema in
        let t = (open_named_mcap file_name true (with_ids number cs 0) now params s).0 in
        ((k : ℕ) × (c : McapChannel) × (get_elem? cs k ≡ some c)
          × (c.topic ≡ name)
          × (channel_id t.name_to_id_map name ≡ number k))
        ⊎ ((contains name (topics cs) ≡ false)
            × (channel_id t.name_to_id_map name ≡ channel_id s.name_to_id_map name))
  unfolding open_named_mcap log_params log_msg
  open_named_mcap-channel_id number proto_names params_schema file_name now params name s =
      elim (add_channels-Enters number (mcap_channels proto_names params_schema) 0 name
        s.name_to_id_map) [
          | inl (k, c, there, named, found) ↦ inl (
            k,
            c,
            there,
            named,
            channel_id-some
                  (add_channels (with_ids number (mcap_channels proto_names params_schema) 0)
                    s.name_to_id_map)
                  name (number (0 + k)) found
                ∙ ap number (omega arith),
          )
          | inr (absent, kept) ↦ inr (
            absent,
            channel_id_same
                (add_channels (with_ids number (mcap_channels proto_names params_schema) 0)
                  s.name_to_id_map)
                s.name_to_id_map name kept,
          )
        ]
