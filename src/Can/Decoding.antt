-- ===== src/Can/Decoding.antt =====
-- What `_decode_can_frame` leaves in the fields of a message.
use mathlib.Core.Option.{some-injective}
use drivebrain_software.Base.{
  ◌≡◌, ◌≢◌, refl, ap, sym, ◌∙◌, arith, true, false, String, List, [], ◌∷◌, some, Dict, lookup,
  insert, lookup-insert, lookup-insert_self, All, eq_iff,
}
use drivebrain_software.Floats.{Floats}
use drivebrain_software.Can.Defs.{Signal, DbcMessage, Value, is_present, converted, decode_signals}

lookup-insert_ne :
    {V : Type 0} (key name : String) (v : V) (dict : Dict V)
    → key ≢ name
    → lookup name (insert key v dict) ≡ lookup name dict
lookup-insert_ne key name v dict other =
    lookup-insert key name v dict ∙ ground (arith, eq_iff key name, other)

module _ {n : Floats} {D : Type 0} where
  -- The value that a signal gives to its field.
  abbrev pub read_value : D → Signal n D → Value n D → Value n D
  read_value payload sig old = converted n D (sig.raw_to_phys (sig.decode payload)) old

  -- A signal that is always read, and whose field is there.
  abbrev pub IsReadable : Dict (Value n D) → Signal n D → Type 0
  IsReadable fields sig =
      (sig.is_mux_value ≡ false) × ((old : Value n D) × (lookup sig.name fields ≡ some old))

  is_present_plain :
      (m : DbcMessage n D) (payload : D) (sig : Signal n D)
      → sig.is_mux_value ≡ false
      → is_present n D m payload sig ≡ true
  unfolding is_present
  is_present_plain m payload sig plain = ground (arith, plain)

  pub decode_next :
      (m : DbcMessage n D) (payload : D) (sig : Signal n D) (sigs : List (Signal n D))
      (fields : Dict (Value n D)) (old : Value n D)
      → is_present n D m payload sig ≡ true
      → lookup sig.name fields ≡ some old
      → decode_signals n D m payload (sig ∷ sigs) fields
        ≡ decode_signals n D m payload sigs (insert sig.name (read_value payload sig old) fields)
  unfolding decode_signals
  decode_next m payload sig sigs fields old present there = ground (arith, present, there)

  pub decode_skip :
      (m : DbcMessage n D) (payload : D) (sig : Signal n D) (sigs : List (Signal n D))
      (fields : Dict (Value n D))
      → is_present n D m payload sig ≡ false
      → decode_signals n D m payload (sig ∷ sigs) fields ≡ decode_signals n D m payload sigs fields
  unfolding decode_signals
  decode_skip m payload sig sigs fields absent = ground (arith, absent)

  -- No signal of the list has the name.
  abbrev pub NoneNamed : String → List (Signal n D) → Type 0
  NoneNamed name sigs = All (λ o. o.name ≢ name) sigs

  abbrev pub DistinctNames : List (Signal n D) → Type 0
  DistinctNames [] = Unit
  DistinctNames (sig ∷ sigs) = NoneNamed sig.name sigs × DistinctNames sigs

  -- Inserting another signal's field keeps the fields of the rest readable.
  IsReadable-insert :
      (sigs : List (Signal n D)) (name : String) (v : Value n D) (fields : Dict (Value n D))
      → NoneNamed name sigs
      → All (IsReadable fields) sigs
      → All (IsReadable (insert name v fields)) sigs
  IsReadable-insert [] name v fields apart ok = tt
  IsReadable-insert (sig ∷ sigs) name v fields (other, apart) ((plain, has), ok) = (
    (plain, (has.0, lookup-insert_ne name sig.name v fields (λ e. other (sym e)) ∙ has.1)),
    IsReadable-insert sigs name v fields apart ok,
  )

  abbrev pub GivenValue : D → Dict (Value n D) → Dict (Value n D) → Signal n D → Type 0
  GivenValue payload fields after sig =
      (old : Value n D)
      → lookup sig.name fields ≡ some old
      → lookup sig.name after ≡ some (read_value payload sig old)

  -- The fields afterwards: each signal's has the value that the signal reads, by the type that the
  -- field had, and all others are as before.
  pub record HasRead (payload : D) (sigs : List (Signal n D)) (fields after : Dict (Value n D))
      : Type 0 where
    pub reads : All (GivenValue payload fields after) sigs
    pub keeps : (name : String) → NoneNamed name sigs → lookup name after ≡ lookup name fields

  GivenValue-insert :
      (payload : D) (sigs : List (Signal n D)) (name : String) (v : Value n D)
      (fields after : Dict (Value n D))
      → NoneNamed name sigs
      → All (GivenValue payload (insert name v fields) after) sigs
      → All (GivenValue payload fields after) sigs
  GivenValue-insert payload [] name v fields after apart given = tt
  GivenValue-insert payload (sig ∷ sigs) name v fields after (other, apart) (g, given) = (
    λ old there. g old (lookup-insert_ne name sig.name v fields (λ e. other (sym e)) ∙ there),
    GivenValue-insert payload sigs name v fields after apart given,
  )

  pub decode_signals-HasRead :
      (m : DbcMessage n D) (payload : D) (sigs : List (Signal n D)) (fields : Dict (Value n D))
      → DistinctNames sigs
      → All (IsReadable fields) sigs
      → (after : Dict (Value n D)) × (decode_signals n D m payload sigs fields ≡ some after)
        × HasRead payload sigs fields after
  unfolding decode_signals
  decode_signals-HasRead m payload [] fields distinct ok =
      (fields, refl, record { reads = tt; keeps = λ name apart. refl })
  decode_signals-HasRead m payload (sig ∷ sigs) fields (apart, distinct) ((plain, has), ok) =
      let old = has.0 in
      let v = read_value payload sig old in
      let new = insert sig.name v fields in
      let (after, e, read) =
        decode_signals-HasRead m payload sigs new distinct
          (IsReadable-insert sigs sig.name v fields apart ok) in
      (
        after,
        decode_next m payload sig sigs fields old (is_present_plain m payload sig plain) has.1 ∙ e,
        record {
          reads = (
            λ old' there'.
                read.keeps sig.name apart
                ∙ lookup-insert_self sig.name v fields
                ∙ ap (λ o. some (read_value payload sig o))
                    (some-injective old old' (sym has.1 ∙ there')),
            GivenValue-insert payload sigs sig.name v fields after apart read.reads,
          );
          keeps = λ name (other, rest).
              read.keeps name rest ∙ lookup-insert_ne sig.name name v fields other;
        },
      )
