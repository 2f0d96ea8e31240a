-- ===== src/Sim/Receive.antt =====
-- Which messages of the simulation reach the log and the tracker.
use drivebrain_software.Base.{
  ◌≡◌, refl, ap, sym, ◌∙◌, Bool, true, false, String, List, [], ◌∷◌, Option, some, Option-cases,
  ◌⊎◌, inl, inr,
}
use mathlib.Core.List.{foldl}
use mathlib.Core.Option.{none-ne-some}
use drivebrain_software.Sim.Defs.{
  Recv, timed_out, terminated, failed, multipart, parse_by_name, hand_on, dispatch, veh_recv_loop,
}

-- The rounds up to the end of the loop, without those that bring no message.
unfoldable pub arrived : List (Bool × Recv) → List (List String)
arrived [] = []
arrived ((false, r) ∷ rest) = []
arrived ((true, terminated) ∷ rest) = []
arrived ((true, timed_out) ∷ rest) = arrived rest
arrived ((true, failed) ∷ rest) = arrived rest
arrived ((true, multipart parts) ∷ rest) = parts ∷ arrived rest

module _ {D M S : Type 0} (find : String → Option D) (parse : D → String → Option M)
    (consume : M → S → S) where
  -- A message has a known type in its first part and a body that this type parses in its second.
  abbrev pub Carries : List String → M → Type 0
  Carries parts msg =
      (type_name body : String) × (more : List String) × (desc : D) × (parts
        ≡ type_name ∷ body ∷ more)
      × (find type_name ≡ some desc)
      × (parse desc body ≡ some msg)

  -- The messages that a list of parts carries, in order; what carries none is passed over.
  pub data Delivered : List (List String) → List M → Type 0 where
    none_left : Delivered [] []
    takes :
        {parts : List String} {msg : M} {rest : List (List String)} {msgs : List M}
        → Carries parts msg
        → Delivered rest msgs
        → Delivered (parts ∷ rest) (msg ∷ msgs)
    skips :
        {parts : List String} {rest : List (List String)} {msgs : List M}
        → ((msg : M) → ¬ Carries parts msg)
        → Delivered rest msgs
        → Delivered (parts ∷ rest) msgs

  abbrev Dispatched : List String → S → Type 0
  Dispatched parts s =
      ((msg : M) × Carries parts msg × (dispatch D M S find parse consume parts s ≡ consume msg s))
      ⊎ (((msg : M) → ¬ Carries parts msg) × (dispatch D M S find parse consume parts s ≡ s))

  parse_by_name-eq-some :
      (type_name body : String) (msg : M)
      → parse_by_name D M S find parse consume type_name body ≡ some msg
      → (desc : D) × (find type_name ≡ some desc) × (parse desc body ≡ some msg)
  unfolding parse_by_name
  parse_by_name-eq-some type_name body msg e = elim (Option-cases (find type_name)) [
    | inl unknown ↦ absurd (none-ne-some msg (rw (unknown, parse_by_name) at e))
    | inr (desc, known) ↦ (desc, known, rw (known, parse_by_name) at e)
  ]

  parse_by_name-Carries :
      (type_name body : String) (more : List String) (msg : M)
      → Carries (type_name ∷ body ∷ more) msg
      → parse_by_name D M S find parse consume type_name body ≡ some msg
  unfolding parse_by_name
  parse_by_name-Carries type_name body more msg (t, b, rest, desc, e, known, good) =
      rw (same_type e, parse_by_name) (rw (known, parse_by_name) (rw (same_body e) good))
    where
      same_type : type_name ∷ body ∷ more ≡ t ∷ b ∷ rest → type_name ≡ t
      same_type e = cc

      same_body : type_name ∷ body ∷ more ≡ t ∷ b ∷ rest → body ≡ b
      same_body e = cc

  dispatch-Dispatched : (parts : List String) (s : S) → Dispatched parts s
  unfolding dispatch hand_on
  dispatch-Dispatched [] s = inr ((λ msg (t, b, more, desc, e, _, _). cc), refl)
  dispatch-Dispatched (one ∷ []) s = inr ((λ msg (t, b, more, desc, e, _, _). cc), refl)
  dispatch-Dispatched (type_name ∷ body ∷ more) s =
      elim (Option-cases (parse_by_name D M S find parse consume type_name body)) [
        | inl bad ↦ inr (
          λ msg c. none-ne-some msg (sym bad ∙ parse_by_name-Carries type_name body more msg c),
          rw (bad, hand_on),
        )
        | inr (msg, good) ↦
            let (desc, known, parsed) = parse_by_name-eq-some type_name body msg good in
            inl (msg, (type_name, body, more, desc, refl, known, parsed), rw (good, hand_on))
      ]

  -- The loop hands on exactly the messages that carry a known type in their first part and a body
  -- of this type in their second, each once and in order, until `_running` is false or the context
  -- is terminated. A receive that times out or fails, a message of fewer than two parts, an unknown
  -- type and a body that does not parse are passed over.
  pub veh_recv_loop-Delivered :
      (rounds : List (Bool × Recv)) (s : S)
      → (msgs : List M) × Delivered (arrived rounds) msgs
        × (veh_recv_loop D M S find parse consume rounds s ≡ foldl (λ t m. consume m t) s msgs)
  unfolding veh_recv_loop arrived
  veh_recv_loop-Delivered [] s = ([], none_left, refl)
  veh_recv_loop-Delivered ((false, r) ∷ rest) s = ([], none_left, refl)
  veh_recv_loop-Delivered ((true, timed_out) ∷ rest) s = veh_recv_loop-Delivered rest s
  veh_recv_loop-Delivered ((true, failed) ∷ rest) s = veh_recv_loop-Delivered rest s
  veh_recv_loop-Delivered ((true, terminated) ∷ rest) s = ([], none_left, refl)
  veh_recv_loop-Delivered ((true, multipart parts) ∷ rest) s =
      let (msgs, walk, e) =
        veh_recv_loop-Delivered rest (dispatch D M S find parse consume parts s) in
      elim (dispatch-Dispatched parts s) [
        | inl (msg, carries, takes_it) ↦ (
          msg ∷ msgs,
          takes carries walk,
          e ∙ ap (λ t. foldl (λ u m. consume m u) t msgs) takes_it,
        )
        | inr (carries_none, keeps) ↦
            (msgs, skips carries_none walk, e ∙ ap (λ t. foldl (λ u m. consume m u) t msgs) keeps)
      ]
