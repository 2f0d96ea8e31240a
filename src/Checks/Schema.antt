-- ===== src/Checks/Schema.antt =====
-- Three protobuf files, two of which need each other, and a small parameter file.
use mathlib.Core.List.{Memᴰ}
use Prim.Native.String.{String}
use drivebrain_software.Base.{
  ℕ, suc, ◌≡◌, refl, sym, ap, ◌∙◌, ◌⊎◌, get_elem?, false, true, List, [], ◌∷◌, none, some, length,
  if◌then◌else◌, str_eq,
}
use drivebrain_software.Base.Int.{pos}
use drivebrain_software.Floats.Micros.{micro_floats}
use drivebrain_software.Params.Init.{
  Json, array, object, boolean, number_integer, string, nil, item, end, field,
}
use drivebrain_software.Schema.Defs.{
  MessageType, FilePool, contains, serialize_fd_set, walk, expand, visit_all, visit,
}
use drivebrain_software.Logger.Defs.{Logger, construct, open_named_mcap, channel_id}
use drivebrain_software.Logger.Channels.{
  McapChannel, mcap_channels, with_ids, topics, open_named_mcap-channel_id,
}
use drivebrain_software.Schema.Files.{IsComplete, serialize_fd_set-IsComplete}
use drivebrain_software.Schema.Channels.{send_live_telem_msg, server_channels}
use drivebrain_software.Schema.Topics.{LeadsTo, send_all, send_live_telem_msg-LeadsTo}
use drivebrain_software.Schema.Document.{generate_json_schema, allows, IsUniform, get_field}
use drivebrain_software.Schema.Fits.{fits, allows-generate_json_schema_eq}

pub data ProtoFile : Type 0 where
  base_msgs : ProtoFile
  hytech : ProtoFile
  hytech_msgs : ProtoFile

abbrev file_name : ProtoFile → String
file_name base_msgs = "base_msgs.proto"
file_name hytech = "hytech.proto"
file_name hytech_msgs = "hytech_msgs.proto"

abbrev imports : ProtoFile → List ProtoFile
imports base_msgs = []
imports hytech = hytech_msgs ∷ []
imports hytech_msgs = base_msgs ∷ hytech ∷ []

abbrev types_of : ProtoFile → List MessageType
types_of base_msgs = []
types_of hytech = record { name = "Torque"; full_name = "hytech.Torque" } ∷ []
types_of hytech_msgs = record { name = "VCRData_s"; full_name = "hytech_msgs.VCRData_s" } ∷ []

abbrev pool : FilePool
pool = record {
  File = ProtoFile;
  name = file_name;
  dependencies = imports;
  message_types = types_of;
  find_file_by_name = λ name.
      if str_eq name "hytech.proto"
      then some hytech
      else if str_eq name "hytech_msgs.proto"
      then some hytech_msgs
      else none;
}

abbrev every_file : List ProtoFile
every_file = base_msgs ∷ hytech ∷ hytech_msgs ∷ []

every_file_lem : (f : ProtoFile) → Memᴰ f every_file
every_file_lem base_msgs = Memᴰ.head refl
every_file_lem hytech = Memᴰ.tail (Memᴰ.head refl)
every_file_lem hytech_msgs = Memᴰ.tail (Memᴰ.tail (Memᴰ.head refl))

-- The file that has a name.
file_of : String → ProtoFile
file_of name =
    if str_eq name "base_msgs.proto"
    then base_msgs
    else if str_eq name "hytech.proto"
    then hytech
    else hytech_msgs

file_of-name : (f : ProtoFile) → file_of (file_name f) ≡ f
unfolding file_of
file_of-name base_msgs = refl
file_of-name hytech = refl
file_of-name hytech_msgs = refl

name_unique : (f g : ProtoFile) → file_name f ≡ file_name g → f ≡ g
name_unique f g same = sym (file_of-name f) ∙ ap file_of same ∙ file_of-name g

serialize_fd_set-IsComplete_example :
    (fd_set : List ProtoFile) × (serialize_fd_set pool (suc (length every_file)) hytech
      ≡ some fd_set)
    × IsComplete pool hytech fd_set
serialize_fd_set-IsComplete_example =
    serialize_fd_set-IsComplete pool every_file hytech (λ f g need dep. every_file_lem g)
      name_unique

-- The file that is asked for comes up again, since another needs it.
serialize_fd_set_circle :
    serialize_fd_set pool 4 hytech ≡ some (hytech ∷ hytech_msgs ∷ base_msgs ∷ hytech ∷ [])
unfolding serialize_fd_set walk expand visit_all visit contains
serialize_fd_set_circle = refl

abbrev proto_names : List String
proto_names = "hytech_msgs.proto" ∷ "hytech.proto" ∷ "absent.proto" ∷ []

abbrev sent_before : List (ℕ × String × String)
sent_before = (5, "Unknown", "x") ∷ []

send_live_telem_msg-LeadsTo_example :
    let c = server_channels pool 4 proto_names in
    let b = (send_live_telem_msg 7 "Torque" "abc" (send_all sent_before c.name_to_id_map)).1 in
    LeadsTo pool 4 c.channels "Torque" b.channel × (b.time ≡ 7) × (b.payload ≡ "abc")
send_live_telem_msg-LeadsTo_example =
    send_live_telem_msg-LeadsTo pool 4 proto_names sent_before 7 "Torque" "abc"

abbrev document : Json micro_floats
document = object (
    field "telem_can_device" (string "can0") (
      field "gains" (array (item (number_integer (pos 1)) (item (number_integer (pos 2)) nil)))
        (field "vn_driver" (object (field "enabled" (boolean true) end)) end)))

document-IsUniform : IsUniform micro_floats document
unfolding IsUniform get_field generate_json_schema
document-IsUniform = (tt, refl, ((tt, (tt, refl, tt)), refl, ((tt, refl, tt), refl, tt)))

-- An array whose second element is no integer is not allowed.
abbrev other_document : Json micro_floats
other_document =
    object (field "gains" (array (item (number_integer (pos 3)) (item (string "high") nil))) end)

other_document-fits : fits document other_document ≡ false
unfolding fits get_field
other_document-fits = refl

allows-generate_json_schema_eq_example :
    allows micro_floats other_document (generate_json_schema micro_floats document)
    ≡ fits document other_document
allows-generate_json_schema_eq_example = allows-generate_json_schema_eq document other_document

-- A log file is opened by a recorder that has an entry of an earlier one.
abbrev opened_before : Logger
unfolding construct
opened_before = record construct { name_to_id_map = ("Retired", 9) ∷ [] }

open_named_mcap-channel_id_example :
    let cs = mcap_channels pool 4 proto_names "{}" in
    let t =
      (open_named_mcap "/tmp/1.mcap" true (with_ids pool 4 suc cs 0) 3 "{}" opened_before).0 in
    ((k : ℕ) × (c : McapChannel pool 4) × (get_elem? cs k ≡ some c)
      × (c.topic ≡ "Torque")
      × (channel_id t.name_to_id_map "Torque" ≡ suc k))
    ⊎ ((contains "Torque" (topics pool 4 cs) ≡ false)
        × (channel_id t.name_to_id_map "Torque" ≡ channel_id opened_before.name_to_id_map "Torque"))
open_named_mcap-channel_id_example =
    open_named_mcap-channel_id pool 4 suc proto_names "{}" "/tmp/1.mcap" 3 "{}" "Torque"
      opened_before
