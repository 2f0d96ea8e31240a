-- ===== src/Tracker/Validity.antt =====
-- What the validity that the tracker reports says of the messages that it received.
use drivebrain_software.Base.{ℕ, ◌≡◌, ◌⊎◌, inl, inr, refl, ◌∙◌, arith, true, List, [], ◌∷◌}
use drivebrain_software.Floats.{Floats}
use drivebrain_software.Tracker.Messages.{
  Message, vn_data, rear_suspension, front_suspension, pedals_system_data, steering_data,
}
use drivebrain_software.Tracker.Clock.{Stamps, validate_timestamps}
use drivebrain_software.Tracker.Defs.{
  Tracker, construct, handle_receive_protobuf_message, receive_all,
}
use drivebrain_software.Tracker.Stamps.{IsCurrent, validate_timestamps_iff}

-- The four groups whose times are kept.
pub data Group : Type 0 where
  rear_group : Group
  front_group : Group
  pedals_group : Group
  steering_group : Group

abbrev pub stamp : Group → Stamps → ℕ
stamp rear_group t = t.rear
stamp front_group t = t.front
stamp pedals_group t = t.pedals
stamp steering_group t = t.steering

abbrev pub no_stamps : Stamps
no_stamps = record { rear = 0; front = 0; pedals = 0; steering = 0 }

module _ {n : Floats} where
  abbrev pub BelongsTo : Group → Message n → Type 0
  BelongsTo rear_group (rear_suspension _) = Unit
  BelongsTo front_group (front_suspension _) = Unit
  BelongsTo pedals_group (pedals_system_data _) = Unit
  BelongsTo steering_group (steering_data _) = Unit
  BelongsTo _ _ = ⊥

  -- Some message of the group was handled at that time.
  pub data HeardAt (g : Group) (time : ℕ) : List (ℕ × Message n) → Type 0 where
    here :
        {now : ℕ} {m : Message n} {es : List (ℕ × Message n)}
        → time ≡ now
        → BelongsTo g m
        → HeardAt g time ((now, m) ∷ es)
    there :
        {e : ℕ × Message n} {es : List (ℕ × Message n)}
        → HeardAt g time es
        → HeardAt g time (e ∷ es)

  stamp_step :
      (g : Group) (now : ℕ) (m : Message n) (t : Tracker n)
      → let after = stamp g (handle_receive_protobuf_message n now m t).timestamp_array in
        ((after ≡ now) × BelongsTo g m) ⊎ (after ≡ stamp g t.timestamp_array)
  unfolding handle_receive_protobuf_message
  stamp_step rear_group now (vn_data m) t = inr refl
  stamp_step rear_group now (rear_suspension m) t = inl (refl, tt)
  stamp_step rear_group now _ t = inr refl
  stamp_step front_group now (vn_data m) t = inr refl
  stamp_step front_group now (front_suspension m) t = inl (refl, tt)
  stamp_step front_group now _ t = inr refl
  stamp_step pedals_group now (vn_data m) t = inr refl
  stamp_step pedals_group now (pedals_system_data m) t = inl (refl, tt)
  stamp_step pedals_group now _ t = inr refl
  stamp_step steering_group now (vn_data m) t = inr refl
  stamp_step steering_group now (steering_data m) t = inl (refl, tt)
  stamp_step steering_group now _ t = inr refl

  -- A time is that of a message of its group, or the first one.
  stamp-receive_all :
      (g : Group) (es : List (ℕ × Message n)) (t : Tracker n)
      → let after = stamp g (receive_all n es t).timestamp_array in
        HeardAt g after es ⊎ (after ≡ stamp g t.timestamp_array)
  unfolding receive_all
  stamp-receive_all g [] t = inr refl
  stamp-receive_all g ((now, m) ∷ es) t =
      elim (stamp-receive_all g es (handle_receive_protobuf_message n now m t)) [
        | inl heard ↦ inl (there heard)
        | inr kept ↦ elim (stamp_step g now m t) [
          | inl (set, mine) ↦ inl (here (kept ∙ set) mine)
          | inr same ↦ inr (kept ∙ same)
        ]
      ]

  -- The tracker after the messages, when the memory of its timestamps was zero at the start.
  abbrev pub heard : List (ℕ × Message n) → Tracker n
  heard es = receive_all n es (construct n no_stamps)

  -- If the memory of the timestamps is zero at the start, a tracker that reports validity has heard
  -- from all four groups of sensors, at the times that it has stored.
  pub valid-HeardAt :
      (g : Group) (es : List (ℕ × Message n)) (now : ℕ)
      → validate_timestamps now (heard es).timestamp_array ≡ true
      → HeardAt g (stamp g (heard es).timestamp_array) es
  unfolding construct
  valid-HeardAt g es now valid =
      let t = heard es in
      let current = (validate_timestamps_iff now t.timestamp_array).0 valid in
      elim (stamp-receive_all g es (construct n no_stamps)) [
        | inl found ↦ found
        | inr kept ↦ absurd (positive g t.timestamp_array current kept)
      ]
    where
      positive : (k : Group) (s : Stamps) → IsCurrent now s → stamp k s ≡ stamp k no_stamps → ⊥
      positive rear_group s c e = omega arith
      positive front_group s c e = omega arith
      positive pedals_group s c e = omega arith
      positive steering_group s c e = omega arith
