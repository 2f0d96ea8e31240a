-- ===== src/Schema/Topics.antt =====
-- Live messages go out on the channel of their type.
use Prim.Native.String.{String}
use mathlib.Core.List.{map-append}
use drivebrain_software.Base.{
  ℕ, zero, suc, ◌≡◌, refl, ap, ◌∙◌, subst, arith, ◌⊎◌, inl, inr, List, [], ◌∷◌, ◌++◌, false, ◌||◌,
  Option, none, some, Dict, lookup, insert, lookup-insert, map, length, length-append, get_elem?,
  str_eq, eq_iff, Bool-cases,
}
use drivebrain_software.Schema.Defs.{
  FilePool, MessageType, contains, serialize_fd_set, get_pb_descriptors,
}
use drivebrain_software.Schema.Walk.{contains-append}
use drivebrain_software.Schema.Channels.{
  at_name, send_live_telem_msg, ServerChannel, Channels, add_channel, add_message_types,
  add_file_channels, server_channels,
}

get_elem?-append_old {ℓ} :
    {A : Type ℓ} (xs : List A) (i : ℕ) (x y : A)
    → get_elem? xs i ≡ some x
    → get_elem? (xs ++ (y ∷ [])) i ≡ some x
get_elem?-append_old [] i x y e = cc
get_elem?-append_old (z ∷ zs) zero x y e = e
get_elem?-append_old (z ∷ zs) (suc i) x y e = get_elem?-append_old zs i x y e

get_elem?-append_new {ℓ} :
    {A : Type ℓ} (xs : List A) (y : A) → get_elem? (xs ++ (y ∷ [])) (length xs) ≡ some y
get_elem?-append_new [] y = refl
get_elem?-append_new (z ∷ zs) y = get_elem?-append_new zs y

-- The messages sent one after the other, each with its time, the name of its type and its bytes.
unfoldable pub send_all : List (ℕ × String × String) → Dict ℕ → Dict ℕ
unfolding send_live_telem_msg
send_all [] ids = ids
send_all ((now, name, bytes) ∷ ms) ids = send_all ms (send_live_telem_msg now name bytes ids).0

module _ (pool : FilePool) (fuel : ℕ) where
  abbrev Chan : Type 0
  Chan = ServerChannel pool fuel

  abbrev topics : List Chan → List String
  topics = map (λ (c : Chan). c.topic)

  -- The channel with a number, counted from 1.
  abbrev pub channel_of : List Chan → ℕ → Option Chan
  channel_of cs zero = none
  channel_of cs (suc i) = get_elem? cs i

  -- A number leads to a channel of the name, or to none if no channel has the name.
  abbrev pub LeadsTo : List Chan → String → ℕ → Type 0
  LeadsTo cs name i =
      ((c : Chan) × (channel_of cs i ≡ some c) × (c.topic ≡ name))
      ⊎ ((i ≡ 0) × (contains name (topics cs) ≡ false))

  abbrev Found : List Chan → Dict ℕ → Type 0
  Found cs ids =
      (name : String)
      → ((i : ℕ) × (lookup name ids ≡ some i) × LeadsTo cs name i)
        ⊎ ((lookup name ids ≡ none) × (contains name (topics cs) ≡ false))

  contains_topic :
      (name : String) (cs : List Chan) (d : Chan)
      → contains name (topics (cs ++ (d ∷ []))) ≡ (contains name (topics cs) || str_eq d.topic name)
  contains_topic name cs d =
      ap (contains name) (map-append (λ (c : Chan). c.topic) cs (d ∷ []))
      ∙ contains-append name (topics cs) d.topic

  LeadsTo-append :
      (cs : List Chan) (d : Chan) (name : String) (i : ℕ)
      → str_eq d.topic name ≡ false
      → LeadsTo cs name i
      → LeadsTo (cs ++ (d ∷ [])) name i
  LeadsTo-append cs d name zero other (inl (c, e, t)) = cc
  LeadsTo-append cs d name (suc i) other (inl (c, e, t)) =
      inl (c, get_elem?-append_old cs i c d e, t)
  LeadsTo-append cs d name i other (inr (zeroed, absent)) =
      inr (zeroed, contains_topic name cs d ∙ ground (arith, other, absent))

  Found-append :
      (cs : List Chan) (ids : Dict ℕ) (d : Chan) (i : ℕ)
      → i ≡ suc (length cs)
      → Found cs ids
      → Found (cs ++ (d ∷ [])) (insert d.topic i ids)
  Found-append cs ids d i next found name = elim (Bool-cases (str_eq d.topic name)) [
    | inl same ↦ inl (
      i,
      lookup-insert d.topic name i ids ∙ rw same,
      inl (
        d,
        ap (channel_of (cs ++ (d ∷ []))) next ∙ get_elem?-append_new cs d,
        (eq_iff d.topic name).0 same,
      ),
    )
    | inr other ↦ elim (found name) [
      | inl (j, e, leads) ↦
          inl (
            j,
            lookup-insert d.topic name i ids ∙ rw other e,
            LeadsTo-append cs d name j other leads,
          )
      | inr (e, absent) ↦ inr (
        lookup-insert d.topic name i ids ∙ rw other e,
        contains_topic name cs d ∙ ground (arith, other, absent),
      )
    ]
  ]

  -- The map of the constructor's loops leads to the channels that they have made.
  abbrev Numbered : Channels pool fuel → Type 0
  Numbered c = (c.running_index ≡ suc (length c.channels)) × Found c.channels c.name_to_id_map

  add_channel-Numbered :
      (file : FilePool.File pool) (m : MessageType) (c : Channels pool fuel)
      → Numbered c
      → Numbered (add_channel pool fuel file m c)
  unfolding add_channel
  add_channel-Numbered file m c (next, found) = (
    omega (arith, length-append c.channels (new ∷ [])),
    Found-append c.channels c.name_to_id_map new c.running_index next found,
  )
    where
      new : Chan
      new = record {
        topic = m.name;
        encoding = "protobuf";
        schema_name = m.full_name;
        schema = serialize_fd_set pool fuel file;
      }

  add_message_types-Numbered :
      (file : FilePool.File pool) (ms : List MessageType) (c : Channels pool fuel)
      → Numbered c
      → Numbered (add_message_types pool fuel file ms c)
  unfolding add_message_types
  add_message_types-Numbered file [] c h = h
  add_message_types-Numbered file (m ∷ ms) c h =
      add_message_types-Numbered file ms (add_channel pool fuel file m c)
        (add_channel-Numbered file m c h)

  add_file_channels-Numbered :
      (fs : List (FilePool.File pool)) (c : Channels pool fuel)
      → Numbered c
      → Numbered (add_file_channels pool fuel fs c)
  unfolding add_file_channels
  add_file_channels-Numbered [] c h = h
  add_file_channels-Numbered (f ∷ fs) c h =
      add_file_channels-Numbered fs (add_message_types pool fuel f (pool.message_types f) c)
        (add_message_types-Numbered f (pool.message_types f) c h)

  server_channels-Numbered :
      (proto_names : List String) → Numbered (server_channels pool fuel proto_names)
  unfolding server_channels lookup contains
  server_channels-Numbered proto_names =
      add_file_channels-Numbered (get_pb_descriptors pool proto_names) start
        (refl, λ name. inr (refl, refl))
    where
      start : Channels pool fuel
      start = record { channels = []; name_to_id_map = []; running_index = 1 }

  at_name-Found :
      (cs : List Chan) (name : String) (ids : Dict ℕ)
      → Found cs ids
      → Found cs (at_name name ids).0 × LeadsTo cs name (at_name name ids).1
  unfolding at_name
  at_name-Found cs name ids found = elim (found name) [
    | inl (i, e, leads) ↦ rw (e, at_name) (found, leads)
    | inr (e, absent) ↦ rw (e, at_name) (entered absent, inr (refl, absent))
  ]
    where
      entered : contains name (topics cs) ≡ false → Found cs (insert name 0 ids)
      entered absent other = elim (Bool-cases (str_eq name other)) [
        | inl same ↦ inl (
          0,
          lookup-insert name other 0 ids ∙ rw same,
          inr (
            refl,
            subst (λ n. contains n (topics cs) ≡ false) ((eq_iff name other).0 same) absent,
          ),
        )
        | inr apart ↦ elim (found other) [
          | inl (j, e, leads) ↦ inl (j, lookup-insert name other 0 ids ∙ rw apart e, leads)
          | inr (e, gone) ↦ inr (lookup-insert name other 0 ids ∙ rw apart e, gone)
        ]
      ]

  send_all-Found :
      (cs : List Chan) (ms : List (ℕ × String × String)) (ids : Dict ℕ)
      → Found cs ids
      → Found cs (send_all ms ids)
  unfolding send_all
  send_all-Found cs [] ids found = found
  send_all-Found cs ((now, name, bytes) ∷ ms) ids found =
      send_all-Found cs ms (at_name name ids).0 (at_name-Found cs name ids found).0

  -- Whatever files the server is given and whatever was sent before, a live message is broadcast
  -- with its own time and bytes. If a message type of the files has the name of its type, the
  -- number is that of a channel with this topic, where channels are counted from 1 in the order in
  -- which they are given to the server; if none has, it is 0, which is no channel.
  pub send_live_telem_msg-LeadsTo :
      (proto_names : List String) (before : List (ℕ × String × String)) (now : ℕ)
      (name bytes : String)
      → let c = server_channels pool fuel proto_names in
        let b = (send_live_telem_msg now name bytes (send_all before c.name_to_id_map)).1 in
        LeadsTo c.channels name b.channel × (b.time ≡ now) × (b.payload ≡ bytes)
  unfolding send_live_telem_msg
  send_live_telem_msg-LeadsTo proto_names before now name bytes =
      let c = server_channels pool fuel proto_names in
      let found =
        send_all-Found c.channels before c.name_to_id_map
          (server_channels-Numbered proto_names).1 in
      ((at_name-Found c.channels name (send_all before c.name_to_id_map) found).1, refl, refl)
