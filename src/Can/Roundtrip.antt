-- ===== src/Can/Roundtrip.antt =====
-- A message that is sent as a frame is received as it was.
use Prim.Native.String.{◌++◌}
use drivebrain_software.Base.{
  ℕ, ◌≡◌, refl, arith, ap, sym, ◌∙◌, subst, false, String, List, [], ◌∷◌, Option, some, Dict,
  lookup, All,
}
use drivebrain_software.Base.Int.{pos}
use drivebrain_software.Base.Text.{to_lowercase}
use drivebrain_software.Floats.{Floats}
use drivebrain_software.Can.Defs.{
  Signal, DbcMessage, Value, ProtoMessage, CanFrame, Tables, converted, number_of, encode_number,
  encode_signals, decode_signals, encode_can_frame, decode_can_frame, find_id,
}
use drivebrain_software.Can.Frames.{IsLaidOut, number_for, Reads, encode_signals-Reads}
use drivebrain_software.Can.Decoding.{IsReadable, DistinctNames, GivenValue, decode_signals-HasRead}

module _ {n : Floats} {D : Type 0} where
  -- A signal that is always read, of a field that the encoding encodes, and for whose value the
  -- conversions there and back are exact; `fresh` are the fields of a new message.
  pub record Survives (fields fresh : Dict (Value n D)) (sig : Signal n D) : Type 0 where
    pub plain : sig.is_mux_value ≡ false
    pub value : Value n D
    pub old : Value n D
    pub number : Floats.Double n
    pub has : lookup sig.name fields ≡ some value
    pub encoded : number_of n D value ≡ some number
    pub had : lookup sig.name fresh ≡ some old
    pub exact : converted n D (sig.raw_to_phys (sig.phys_to_raw number)) old ≡ value

  Survives-IsReadable :
      (fields fresh : Dict (Value n D)) (sigs : List (Signal n D))
      → All (Survives fields fresh) sigs
      → All (IsReadable fresh) sigs
  Survives-IsReadable fields fresh [] ok = tt
  Survives-IsReadable fields fresh (sig ∷ sigs) (s, ok) =
      ((s.plain, (s.old, s.had)), Survives-IsReadable fields fresh sigs ok)

  number_for_lem :
      (fields fresh : Dict (Value n D)) (sig : Signal n D) (s : Survives fields fresh sig)
      → number_for fields sig ≡ some s.number
  number_for_lem fields fresh sig s = ground (arith, s.has, s.encoded)

  encode_signals_next :
      (fields : Dict (Value n D)) (sig : Signal n D) (sigs : List (Signal n D)) (d : D)
      (value : Value n D)
      → lookup sig.name fields ≡ some value
      → encode_signals n D fields (sig ∷ sigs) d
        ≡ encode_signals n D fields sigs (encode_number n D sig (number_of n D value) d)
  unfolding encode_signals
  encode_signals_next fields sig sigs d value has = rw (has, encode_signals)

  encode_can_frame-encode_signals :
      (t : Tables n D) (short_name : String) (fields : Dict (Value n D)) (frame : CanFrame n D)
      (id : ℕ) (m : DbcMessage n D) (d : D)
      → lookup (to_lowercase short_name) t.names_to_can_id ≡ some id
      → find_id id t.messages ≡ some m
      → encode_signals n D fields (DbcMessage.signals m) frame.payload ≡ some d
      → encode_can_frame n D t short_name fields frame
        ≡ some (record { can_id = id; len = DbcMessage.message_size m; payload = d }, pos 0)
  unfolding encode_can_frame
  encode_can_frame-encode_signals t short_name fields frame id m d known there e =
      rw (known, there, e, encode_can_frame)

  pub decode_can_frame-decode_signals :
      (pool : String → Option (Dict (Value n D))) (t : Tables n D) (frame : CanFrame n D)
      (m : DbcMessage n D) (fresh after : Dict (Value n D))
      → find_id frame.can_id t.messages ≡ some m
      → pool ("hytech." ++ to_lowercase (DbcMessage.message_name m)) ≡ some fresh
      → decode_signals n D m frame.payload (DbcMessage.signals m) fresh ≡ some after
      → decode_can_frame n D pool t frame
        ≡ some (
            some (record {
              type_name = "hytech." ++ to_lowercase (DbcMessage.message_name m);
              fields = after;
            }))
  unfolding decode_can_frame
  decode_can_frame-decode_signals pool t frame m fresh after there type e =
      rw (there, type, e, decode_can_frame)

  encode_signals-total :
      (fields fresh : Dict (Value n D)) (sigs : List (Signal n D)) (d : D)
      → All (Survives fields fresh) sigs
      → (d' : D) × (encode_signals n D fields sigs d ≡ some d')
  unfolding encode_signals
  encode_signals-total fields fresh [] d ok = (d, refl)
  encode_signals-total fields fresh (sig ∷ sigs) d (s, ok) =
      let (d', e) =
        encode_signals-total fields fresh sigs (encode_number n D sig (number_of n D s.value) d)
          ok in
      (d', encode_signals_next fields sig sigs d s.value s.has ∙ e)

  restored :
      (fields fresh after : Dict (Value n D)) (sigs : List (Signal n D)) (d : D)
      → All (Survives fields fresh) sigs
      → All (λ s. Reads s (number_for fields s) d) sigs
      → All (GivenValue d fresh after) sigs
      → All (λ (sig : Signal n D). lookup sig.name after ≡ lookup sig.name fields) sigs
  restored fields fresh after [] d ok reads given = tt
  restored fields fresh after (sig ∷ sigs) d (s, ok) (r, reads) (g, given) = (
    g s.old s.had
        ∙ ap (λ raw. some (converted n D (sig.raw_to_phys raw) s.old)) read
        ∙ ap some s.exact
        ∙ sym s.has,
    restored fields fresh after sigs d ok reads given,
  )
    where
      read : sig.decode d ≡ sig.phys_to_raw s.number
      read = subst (λ x. Reads sig x d) (number_for_lem fields fresh sig s) r

  -- A message whose type is in the DBC file and in the descriptor pool, none of whose signals is
  -- multiplexed, overlaps another or has its name, and for whose values the conversions are exact,
  -- is encoded without an error, and the frame that results is decoded into a message in which the
  -- field of every signal has the value it was sent with.
  pub decode_can_frame-encode_can_frame :
      (pool : String → Option (Dict (Value n D))) (t : Tables n D) (short_name : String)
      (fields fresh : Dict (Value n D)) (frame : CanFrame n D) (id : ℕ) (m : DbcMessage n D)
      → lookup (to_lowercase short_name) t.names_to_can_id ≡ some id
      → find_id id t.messages ≡ some m
      → pool ("hytech." ++ to_lowercase (DbcMessage.message_name m)) ≡ some fresh
      → DistinctNames (DbcMessage.signals m)
      → IsLaidOut fields (DbcMessage.signals m)
      → All (Survives fields fresh) (DbcMessage.signals m)
      → (sent : CanFrame n D) × (received : ProtoMessage n D) × (encode_can_frame n D t short_name
            fields frame
          ≡ some (sent, pos 0))
        × (decode_can_frame n D pool t sent ≡ some (some received))
        × All
            (λ (sig : Signal n D).
              lookup sig.name (ProtoMessage.fields received) ≡ lookup sig.name fields)
            (DbcMessage.signals m)
  decode_can_frame-encode_can_frame pool t short_name fields fresh frame id m known there type
        distinct laid ok =
      let (d, e) = encode_signals-total fields fresh m.signals frame.payload ok in
      let reads = encode_signals-Reads fields m.signals frame.payload d laid e in
      let (after, e', read) =
        decode_signals-HasRead m d m.signals fresh distinct
          (Survives-IsReadable fields fresh m.signals ok) in
      (
        record { can_id = id; len = m.message_size; payload = d },
        record { type_name = "hytech." ++ to_lowercase m.message_name; fields = after },
        encode_can_frame-encode_signals t short_name fields frame id m d known there e,
        decode_can_frame-decode_signals pool t
            (record { can_id = id; len = m.message_size; payload = d }) m fresh after there type e',
        restored fields fresh after m.signals d ok reads read.reads,
      )
