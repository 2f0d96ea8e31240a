-- ===== src/Can/Frames.antt =====
-- A frame that was encoded reads back, signal by signal, as it was encoded.
use drivebrain_software.Base.{
  ℕ, ◌≡◌, refl, ap, sym, ◌∙◌, List, [], ◌∷◌, Option, none, some, Dict, lookup, All,
}
use mathlib.Core.Option.{some-injective, none-ne-some}
use drivebrain_software.Floats.{Floats}
use drivebrain_software.Can.Defs.{Signal, Value, number_of, encode_number, encode_signals}

module _ {n : Floats} {D : Type 0} where
  -- To encode any of the other signals does not change what `s` reads.
  abbrev pub IsApart : Signal n D → List (Signal n D) → Type 0
  IsApart s others = All (λ o. (r : ℕ) (d : D) → s.decode (Signal.encode o r d) ≡ s.decode d) others

  -- The number that is encoded for a signal, and what the signal reads where it was encoded.
  abbrev pub number_for : Dict (Value n D) → Signal n D → Option (Floats.Double n)
  number_for fields s = elim (lookup s.name fields) [ none ↦ none | some v ↦ number_of n D v ]

  abbrev pub Reads : Signal n D → Option (Floats.Double n) → D → Type 0
  Reads s none d = Unit
  Reads s (some x) d = s.decode d ≡ s.phys_to_raw x

  abbrev pub Fits : Signal n D → Option (Floats.Double n) → Type 0
  Fits s none = Unit
  Fits s (some x) = (d : D) → s.decode (s.encode (s.phys_to_raw x) d) ≡ s.phys_to_raw x

  -- The signals of a message do not overlap, and the numbers of the fields fit in them.
  abbrev pub IsLaidOut : Dict (Value n D) → List (Signal n D) → Type 0
  IsLaidOut fields [] = Unit
  IsLaidOut fields (s ∷ rest) =
      Fits s (number_for fields s) × IsApart s rest × IsLaidOut fields rest

  encode_number-decode :
      (s o : Signal n D) (x : Option (Floats.Double n)) (d : D)
      → ((r : ℕ) (e : D) → s.decode (o.encode r e) ≡ s.decode e)
      → s.decode (encode_number n D o x d) ≡ s.decode d
  unfolding encode_number
  encode_number-decode s o none d apart = refl
  encode_number-decode s o (some x) d apart = apart (o.phys_to_raw x) d

  encode_number-Reads :
      (s : Signal n D) (x : Option (Floats.Double n)) (d : D)
      → Fits s x
      → Reads s x (encode_number n D s x d)
  unfolding encode_number
  encode_number-Reads s none d fits = tt
  encode_number-Reads s (some x) d fits = fits d

  -- The step of the loop, for a field that is there.
  Encoded : Dict (Value n D) → Signal n D → List (Signal n D) → D → D → Type 0
  Encoded fields s rest d d' =
      (encode_signals n D fields rest (encode_number n D s (number_for fields s) d) ≡ some d')

  encode_signals-Encoded :
      (fields : Dict (Value n D)) (s : Signal n D) (rest : List (Signal n D)) (d d' : D)
      → encode_signals n D fields (s ∷ rest) d ≡ some d'
      → Encoded fields s rest d d'
  unfolding encode_signals Encoded
  encode_signals-Encoded fields s rest d d' done = step (lookup s.name fields) done
    where
      step :
          (o : Option (Value n D))
          → (elim o [
            | none ↦ none
            | some v ↦ encode_signals n D fields rest (encode_number n D s (number_of n D v) d)
          ])
            ≡ some d'
          → encode_signals n D fields rest
              (encode_number n D s (elim o [ none ↦ none | some v ↦ number_of n D v ]) d)
            ≡ some d'
      step none e = absurd (none-ne-some d' e)
      step (some v) e = e

  encode_signals-decode :
      (fields : Dict (Value n D)) (s : Signal n D) (others : List (Signal n D)) (d d' : D)
      → IsApart s others
      → encode_signals n D fields others d ≡ some d'
      → s.decode d' ≡ s.decode d
  unfolding encode_signals Encoded
  encode_signals-decode fields s [] d d' apart done = ap s.decode (sym (some-injective d d' done))
  encode_signals-decode fields s (o ∷ others) d d' (one, rest) done =
      encode_signals-decode fields s others (encode_number n D o (number_for fields o) d) d' rest
        (encode_signals-Encoded fields o others d d' done)
      ∙ encode_number-decode s o (number_for fields o) d one

  -- If the signals do not overlap and the numbers fit, then in the frame that the encoding leaves
  -- each signal reads the number that its field had.
  pub encode_signals-Reads :
      (fields : Dict (Value n D)) (sigs : List (Signal n D)) (d d' : D)
      → IsLaidOut fields sigs
      → encode_signals n D fields sigs d ≡ some d'
      → All (λ s. Reads s (number_for fields s) d') sigs
  unfolding Encoded
  encode_signals-Reads fields [] d d' laid done = tt
  encode_signals-Reads fields (s ∷ rest) d d' (fits, apart, laid) done =
      let step = encode_signals-Encoded fields s rest d d' done in
      let next = encode_number n D s (number_for fields s) d in
      (
        kept (number_for fields s) (encode_signals-decode fields s rest next d' apart step)
            (encode_number-Reads s (number_for fields s) d fits),
        encode_signals-Reads fields rest next d' laid step,
      )
    where
      kept :
          {e : D} (x : Option (Floats.Double n))
          → s.decode d' ≡ s.decode e
          → Reads s x e
          → Reads s x d'
      kept none same reads = tt
      kept (some x) same reads = same ∙ reads
