-- ===== src/Can/Sending.antt =====
-- What a CAN driver puts on its bus, and what it counts.
use mathlib.Core.List.{append_assoc, append-nil}
use drivebrain_software.Base.{
  ℕ, suc, ◌+◌, ◌%◌, ◌^◌, ◌<◌, ◌≡◌, refl, ap, sym, ◌∙◌, arith, inl, inr, String, List, [], ◌∷◌, ◌++◌,
  Option, none, some, Dict, lookup, All, Option-cases,
}
use drivebrain_software.Base.Int.{pos, negsuc}
use drivebrain_software.Base.Text.{to_lowercase}
use drivebrain_software.Floats.{Floats}
use drivebrain_software.Can.Defs.{
  Signal, DbcMessage, Value, CanFrame, Tables, find_id, init_tables, encode_signals, encode_number,
  number_of, encode_can_frame, WriteResult, again, failed, wrote, Counters, count_write,
}
use drivebrain_software.Can.Driver.{Output, send_message}
use drivebrain_software.Can.Tables.{init_tables-Agree}
use drivebrain_software.Can.Reading.{HasFields}

-- A call of `send_message`: the name and the fields of a message, and what `write` does.
pub record Send (n : Floats) (D : Type 0) : Type 0 where
  pub short_name : String
  pub fields : Dict (Value n D)
  pub result : WriteResult

module _ {n : Floats} {D : Type 0} where
  encode_signals-total :
      (sigs : List (Signal n D)) (fields : Dict (Value n D)) (payload : D)
      → HasFields fields sigs
      → (after : D) × (encode_signals n D fields sigs payload ≡ some after)
  unfolding encode_signals
  encode_signals-total [] fields payload has = (payload, refl)
  encode_signals-total (sig ∷ sigs) fields payload ((v, there), has) =
      let (after, e) =
        encode_signals-total sigs fields (encode_number n D sig (number_of n D v) payload) has in
      (after, rw (there, encode_signals) e)

  abbrev put : Send n D → CanFrame n D → Output n D → Output n D
  put s f out = record {
    frames = out.frames ++ (f ∷ []);
    counters = count_write s.result out.counters;
  }

  code_unknown :
      (t : Tables n D) (empty : CanFrame n D) (s : Send n D)
      → lookup (to_lowercase s.short_name) t.names_to_can_id ≡ none
      → encode_can_frame n D t s.short_name s.fields empty ≡ some (empty, negsuc 21)
  unfolding encode_can_frame
  code_unknown t empty s missing = rw (missing, encode_can_frame)

  frame_known :
      (t : Tables n D) (empty : CanFrame n D) (s : Send n D) (id : ℕ) (m : DbcMessage n D)
      (payload : D)
      → lookup (to_lowercase s.short_name) t.names_to_can_id ≡ some id
      → find_id id t.messages ≡ some m
      → encode_signals n D s.fields (DbcMessage.signals m) empty.payload ≡ some payload
      → encode_can_frame n D t s.short_name s.fields empty
        ≡ some (record { can_id = id; len = DbcMessage.message_size m; payload = payload }, pos 0)
  unfolding encode_can_frame
  frame_known t empty s id m payload known there e = rw (known, there, e, encode_can_frame)

  send_refused :
      (t : Tables n D) (empty : CanFrame n D) (s : Send n D) (out : Output n D)
      → encode_can_frame n D t s.short_name s.fields empty ≡ some (empty, negsuc 21)
      → send_message n D t empty s.short_name s.fields s.result out ≡ some out
  unfolding send_message
  send_refused t empty s out e = rw (e, send_message)

  send_frame :
      (t : Tables n D) (empty : CanFrame n D) (s : Send n D) (out : Output n D) (f : CanFrame n D)
      → encode_can_frame n D t s.short_name s.fields empty ≡ some (f, pos 0)
      → send_message n D t empty s.short_name s.fields s.result out ≡ some (put s f out)
  unfolding send_message
  send_frame t empty s out f e = rw (e, send_message)

module _ {n : Floats} {D : Type 0} (ms : List (DbcMessage n D)) (empty : CanFrame n D) where
  abbrev tables : Tables n D
  tables = init_tables n D ms

  -- The driver's part of a call, over all calls.
  abbrev pub send_all : List (Send n D) → Output n D → Option (Output n D)
  send_all [] out = some out
  send_all (s ∷ rest) out =
      elim (send_message n D tables empty s.short_name s.fields s.result out) [
        | none ↦ none
        | some out' ↦ send_all rest out'
      ]

  abbrev Leads : Send n D → ℕ → DbcMessage n D → Type 0
  Leads s id m =
      (lookup (to_lowercase s.short_name) tables.names_to_can_id ≡ some id)
      × (find_id id tables.messages ≡ some m)

  -- A message of the DBC file has a field for each of the file's signals.
  abbrev pub IsEncodable : Send n D → Type 0
  IsEncodable s =
      (id : ℕ) (m : DbcMessage n D) → Leads s id m → HasFields s.fields (DbcMessage.signals m)

  -- The frame of a call: the id and the size that the file gives, and the encoded signals.
  abbrev IsFrameOf : Send n D → CanFrame n D → Type 0
  IsFrameOf s f =
      (id : ℕ) × (m : DbcMessage n D) × (payload : D) × Leads s id m
      × (encode_signals n D s.fields (DbcMessage.signals m) empty.payload ≡ some payload)
      × (f ≡ record { can_id = id; len = DbcMessage.message_size m; payload = payload })

  -- The frames given to `write`, in order, and how many it dropped and refused.
  pub data Sent : List (Send n D) → List (CanFrame n D) → ℕ → ℕ → Type 0 where
    none_left : Sent [] [] 0 0
    not_in_file :
        {s : Send n D} {rest : List (Send n D)} {fs : List (CanFrame n D)} {drops errors : ℕ}
        → lookup (to_lowercase s.short_name) tables.names_to_can_id ≡ none
        → Sent rest fs drops errors
        → Sent (s ∷ rest) fs drops errors
    queue_full :
        {s : Send n D} {rest : List (Send n D)} {f : CanFrame n D} {fs : List (CanFrame n D)}
        {drops errors : ℕ}
        → IsFrameOf s f
        → s.result ≡ again
        → Sent rest fs drops errors
        → Sent (s ∷ rest) (f ∷ fs) (suc drops) errors
    refused :
        {s : Send n D} {rest : List (Send n D)} {f : CanFrame n D} {fs : List (CanFrame n D)}
        {drops errors : ℕ}
        → IsFrameOf s f
        → s.result ≡ failed
        → Sent rest fs drops errors
        → Sent (s ∷ rest) (f ∷ fs) drops (suc errors)
    written :
        {s : Send n D} {rest : List (Send n D)} {f : CanFrame n D} {fs : List (CanFrame n D)}
        {drops errors : ℕ}
        → IsFrameOf s f
        → (count : ℕ) → s.result ≡ wrote count
        → Sent rest fs drops errors
        → Sent (s ∷ rest) (f ∷ fs) drops errors

  send_unknown :
      (s : Send n D) (out : Output n D)
      → lookup (to_lowercase s.short_name) tables.names_to_can_id ≡ none
      → send_message n D tables empty s.short_name s.fields s.result out ≡ some out
  send_unknown s out missing = send_refused tables empty s out (code_unknown tables empty s missing)

  send_known :
      (s : Send n D) (out : Output n D) (id : ℕ)
      → IsEncodable s
      → lookup (to_lowercase s.short_name) tables.names_to_can_id ≡ some id
      → (f : CanFrame n D) × IsFrameOf s f
        × (send_message n D tables empty s.short_name s.fields s.result out ≡ some (put s f out))
  send_known s out id can known =
      let (m, there) = init_tables-Agree ms (to_lowercase s.short_name) id known in
      let (payload, e) =
        encode_signals-total (DbcMessage.signals m) s.fields empty.payload
          (can id m (known, there)) in
      (
        record { can_id = id; len = DbcMessage.message_size m; payload = payload },
        (id, m, payload, (known, there), e, refl),
        send_frame tables empty s out _ (frame_known tables empty s id m payload known there e),
      )

  wraps : (c k : ℕ) → (suc c % 2 ^ 64 + k) % 2 ^ 64 ≡ (c + suc k) % 2 ^ 64
  wraps c k = omega arith

  stays_small : (c : ℕ) → c < 2 ^ 64 → (c + 0) % 2 ^ 64 ≡ c
  stays_small c small = omega (arith, small)

  is_small : (c : ℕ) → c % 2 ^ 64 < 2 ^ 64
  is_small c = omega arith

  abbrev pub InRange : Counters → Type 0
  InRange c = (c.tx_drop_count < 2 ^ 64) × (c.tx_error_count < 2 ^ 64)

  -- The counters after so many more drops and errors.
  abbrev pub counted : ℕ → ℕ → Counters → Counters
  counted drops errors c = record {
    tx_drop_count = (c.tx_drop_count + drops) % 2 ^ 64;
    tx_error_count = (c.tx_error_count + errors) % 2 ^ 64;
  }

  count_write-InRange : (r : WriteResult) (c : Counters) → InRange c → InRange (count_write r c)
  unfolding count_write
  count_write-InRange again c small = (is_small (suc c.tx_drop_count), small.1)
  count_write-InRange failed c small = (small.0, is_small (suc c.tx_error_count))
  count_write-InRange (wrote count) c small = small

  -- One frame more, before the others.
  one_more :
      {s : Send n D} {f : CanFrame n D} {rest : List (Send n D)} {fs : List (CanFrame n D)}
      {drops errors : ℕ}
      → IsFrameOf s f
      → Sent rest fs drops errors
      → (r : WriteResult) → s.result ≡ r
      → (c : Counters)
      → (drops' : ℕ) × (errors' : ℕ) × Sent (s ∷ rest) (f ∷ fs) drops' errors'
        × (counted drops errors (count_write r c) ≡ counted drops' errors' c)
  unfolding count_write
  one_more {drops = drops} {errors = errors} is walk again e c = (
    suc drops,
    errors,
    queue_full is e walk,
    ap (λ k. record { tx_drop_count = k; tx_error_count = (c.tx_error_count + errors) % 2 ^ 64 })
        (wraps c.tx_drop_count drops),
  )
  one_more {drops = drops} {errors = errors} is walk failed e c = (
    drops,
    suc errors,
    refused is e walk,
    ap (λ k. record { tx_drop_count = (c.tx_drop_count + drops) % 2 ^ 64; tx_error_count = k })
        (wraps c.tx_error_count errors),
  )
  one_more {drops = drops} {errors = errors} is walk (wrote count) e c =
      (drops, errors, written is count e walk, refl)

  -- The driver with the frames and the counts of some calls added.
  abbrev pub after_calls : List (CanFrame n D) → ℕ → ℕ → Output n D → Output n D
  after_calls fs drops errors out = record {
    frames = out.frames ++ fs;
    counters = counted drops errors out.counters;
  }

  -- With the tables of a DBC file, and messages that have a field for each signal that the file gives
  -- theirs, no sequence of calls dereferences a null pointer, whatever `write` does. Each message
  -- whose name is in the file is encoded and given to `write` once, in order, one whose name is not is
  -- left out, and the counters grow by the writes that found the queue full and by those that failed
  -- otherwise, and wrap around at 64 bits.
  pub send_all-Sent :
      (sends : List (Send n D)) (out : Output n D)
      → All IsEncodable sends
      → InRange out.counters
      → (fs : List (CanFrame n D)) × (drops : ℕ) × (errors : ℕ) × Sent sends fs drops errors
        × (send_all sends out ≡ some (after_calls fs drops errors out))
  send_all-Sent [] out can small = (
    [],
    0,
    0,
    none_left,
    ap some (
        ap (λ fs. record { frames = fs; counters = out.counters }) (sym (append-nil out.frames))
        ∙ ap (λ c. record { frames = out.frames ++ []; counters = c })
            (ap (λ k. record { tx_drop_count = k; tx_error_count = out.counters.tx_error_count })
                (sym (stays_small out.counters.tx_drop_count (small.0)))
              ∙ ap
                  (λ k. record {
                    tx_drop_count = (out.counters.tx_drop_count + 0) % 2 ^ 64;
                    tx_error_count = k;
                  })
                  (sym (stays_small out.counters.tx_error_count (small.1))))),
  )
  send_all-Sent (s ∷ rest) out (can, cans) small =
      elim (Option-cases (lookup (to_lowercase s.short_name) tables.names_to_can_id)) [
        | inl missing ↦
            let (fs, drops, errors, walk, e) = send_all-Sent rest out cans small in
            (
              fs,
              drops,
              errors,
              not_in_file missing walk,
              goes_on s rest (send_unknown s out missing) ∙ e,
            )
        | inr (id, known) ↦
            let (f, frame, does) = send_known s out id can known in
            let (fs, drops, errors, walk, e) =
              send_all-Sent rest (put s f out) cans
                (count_write-InRange s.result out.counters small) in
            let (drops', errors', walk', same) = one_more frame walk s.result refl out.counters in
            (
              f ∷ fs,
              drops',
              errors',
              walk',
              goes_on s rest does
                  ∙ e
                  ∙ ap
                      (λ c. some (record { frames = (out.frames ++ (f ∷ [])) ++ fs; counters = c }))
                      same
                  ∙ ap
                      (λ l.
                        some
                          (record { frames = l; counters = counted drops' errors' out.counters }))
                      (append_assoc out.frames (f ∷ []) fs),
            )
      ]
    where
      goes_on :
          (s : Send n D) (rest : List (Send n D)) {out' : Output n D}
          → send_message n D tables empty s.short_name s.fields s.result out ≡ some out'
          → send_all (s ∷ rest) out ≡ send_all rest out'
      goes_on s rest does = ap (λ o. elim o [ none ↦ none | some u ↦ send_all rest u ]) does

  -- The frames of a call do not depend on what was sent before, nor on what `write` does.
  pub send_message-frames :
      (s : Send n D)
      → IsEncodable s
      → (fs : List (CanFrame n D)) × ((r : WriteResult) (out : Output n D)
          → (out' : Output n D) × (send_message n D tables empty s.short_name s.fields r out
              ≡ some out')
            × (out'.frames ≡ out.frames ++ fs))
  send_message-frames s can =
      elim (Option-cases (lookup (to_lowercase s.short_name) tables.names_to_can_id)) [
        | inl missing ↦ (
          [],
          λ r out. (
            out,
            send_unknown (record s { result = r }) out missing,
            sym (append-nil out.frames),
          ),
        )
        | inr (id, known) ↦
            let (m, there) = init_tables-Agree ms (to_lowercase s.short_name) id known in
            let (payload, e) =
              encode_signals-total (DbcMessage.signals m) s.fields empty.payload
                (can id m (known, there)) in
            let f = frame_of id m payload in
            (
              f ∷ [],
              λ r out. (
                put (record s { result = r }) f out,
                send_frame tables empty (record s { result = r }) out f
                    (frame_known tables empty s id m payload known there e),
                refl,
              ),
            )
      ]
    where
      frame_of : ℕ → DbcMessage n D → D → CanFrame n D
      frame_of id m payload = record {
        can_id = id;
        len = DbcMessage.message_size m;
        payload = payload;
      }
