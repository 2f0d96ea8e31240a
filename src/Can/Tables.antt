-- ===== src/Can/Tables.antt =====
-- The two tables of the DBC file's messages agree, and what an encoding needs is always there.
use drivebrain_software.Base.{
  ℕ, ◌≡◌, arith, ◌⊎◌, inl, inr, String, List, [], ◌∷◌, Option, none, some, Dict, lookup,
  lookup-insert, Option-cases, eq_iff,
}
use mathlib.Core.Option.{none-ne-some}
use drivebrain_software.Base.Int.{ℤ, pos, negsuc}
use drivebrain_software.Base.Text.{to_lowercase}
use drivebrain_software.Floats.{Floats}
use drivebrain_software.Can.Defs.{
  insert_new, find_id, insert_id, DbcMessage, Value, CanFrame, Tables, add_messages, init_tables,
  encode_signals, encode_can_frame,
}

find_id-insert_id_self :
    {V : Type 0} (id : ℕ) (new : V) (table : List (ℕ × V))
    → (v : V) × (find_id id (insert_id id new table) ≡ some v)
unfolding insert_id find_id
find_id-insert_id_self id new table = elim (Option-cases (find_id id table)) [
  | inl missing ↦ (new, ground (arith, missing))
  | inr (old, found) ↦ (old, ground (arith, found))
]

find_id-insert_id_old :
    {V : Type 0} (id other : ℕ) (new old : V) (table : List (ℕ × V))
    → find_id other table ≡ some old
    → find_id other (insert_id id new table) ≡ some old
unfolding insert_id find_id
find_id-insert_id_old id other new old table found = ground (arith, found)

lookup-insert_new :
    {V : Type 0} (key name : String) (new v : V) (dict : Dict V)
    → lookup name (insert_new key new dict) ≡ some v
    → (lookup name dict ≡ some v) ⊎ (v ≡ new)
unfolding insert_new
lookup-insert_new key name new v dict found =
    ground (arith, lookup-insert key name new dict, eq_iff key name)

module _ {n : Floats} {D : Type 0} where
  -- Every name leads to a message.
  abbrev Agree : Tables n D → Type 0
  Agree t =
      (name : String) (id : ℕ)
      → lookup name t.names_to_can_id ≡ some id
      → (m : DbcMessage n D) × (find_id id t.messages ≡ some m)

  add_messages-Agree :
      (ms : List (DbcMessage n D)) (t : Tables n D) → Agree t → Agree (add_messages n D ms t)
  unfolding add_messages
  add_messages-Agree [] t agree = agree
  add_messages-Agree (m ∷ ms) t agree =
      add_messages-Agree ms
        (record {
          messages = insert_id m.id m t.messages;
          names_to_can_id = insert_new (to_lowercase m.message_name) m.id t.names_to_can_id;
        })
        (λ name id found.
          elim (lookup-insert_new (to_lowercase m.message_name) name m.id id t.names_to_can_id
            found) [
              | inl before ↦
                  let (old, there) = agree name id before in
                  (old, find_id-insert_id_old m.id id m old t.messages there)
              | inr same ↦ rw same (find_id-insert_id_self m.id m t.messages)
            ])

  -- So it is in the tables of any DBC file.
  pub init_tables-Agree :
      (ms : List (DbcMessage n D)) (name : String) (id : ℕ)
      → lookup name (init_tables n D ms).names_to_can_id ≡ some id
      → (m : DbcMessage n D) × (find_id id (init_tables n D ms).messages ≡ some m)
  unfolding init_tables lookup
  init_tables-Agree ms =
      add_messages-Agree ms (record { messages = []; names_to_can_id = [] })
        (λ j k e. absurd (none-ne-some k e))

  -- The frame of a message, if its signals could be encoded.
  abbrev pub framed : ℕ → DbcMessage n D → Option D → Option (CanFrame n D × ℤ)
  framed id m none = none
  framed id m (some payload) =
      some (record { can_id = id; len = DbcMessage.message_size m; payload = payload }, pos 0)

  -- With the tables of any DBC file, a name that the file does not have gives `-EINVAL` and leaves
  -- the frame, and any other name leads to a message of the file, whose id and size the frame gets.
  pub encode_can_frame-init_tables :
      (ms : List (DbcMessage n D)) (name : String) (fields : Dict (Value n D))
      (frame : CanFrame n D)
      → (encode_can_frame n D (init_tables n D ms) name fields frame ≡ some (frame, negsuc 21))
        ⊎ ((id : ℕ) × (m : DbcMessage n D) × (lookup
                (to_lowercase name)
                (init_tables n D ms).names_to_can_id
              ≡ some id)
            × (find_id id (init_tables n D ms).messages ≡ some m)
            × (encode_can_frame n D (init_tables n D ms) name fields frame
                ≡ framed id m (encode_signals n D fields (DbcMessage.signals m) frame.payload)))
  unfolding init_tables encode_can_frame lookup
  encode_can_frame-init_tables ms name fields frame =
      elim (Option-cases (lookup (to_lowercase name) (init_tables n D ms).names_to_can_id)) [
        | inl unknown ↦ inl (rw (unknown, encode_can_frame))
        | inr (id, known) ↦
            let start : Tables n D = record { messages = []; names_to_can_id = [] } in
            let (m, there) =
              add_messages-Agree ms start (λ j k e. absurd (none-ne-some k e)) (to_lowercase name)
                id known in
            inr (id, m, known, there, rw (known, there, encode_can_frame))
      ]
