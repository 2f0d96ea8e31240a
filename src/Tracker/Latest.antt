-- ===== src/Tracker/Latest.antt =====
-- The abstract view of the tracker: every published value is that of the latest message that
-- carries it.
use drivebrain_software.Base.{ℕ, ◌≡◌, refl, ap, ◌∙◌, Bool, List, [], ◌∷◌, Option, none, some}
use drivebrain_software.Floats.{Floats}
use drivebrain_software.Vehicle.{VehVec, DriverInput}
use drivebrain_software.Tracker.Messages.{
  Message, vcr_data_s, acu_all_data, rear_suspension, front_suspension, pedals_system_data,
  steering_data, inv1_dynamics, inv2_dynamics, inv3_dynamics, inv4_dynamics, inv1_temps, inv2_temps,
  inv3_temps, inv4_temps, inv1_overload, inv2_overload, inv3_overload, inv4_overload, inv1_status,
  InvDynamics, InvTemps,
}
use drivebrain_software.Tracker.Defs.{Tracker, handle_receive_protobuf_message, receive_all}

pub data Wheel : Type 0 where
  front_left : Wheel
  front_right : Wheel
  rear_left : Wheel
  rear_right : Wheel

abbrev pub at : {A : Type 0} → Wheel → VehVec A → A
at front_left v = v.fl
at front_right v = v.fr
at rear_left v = v.rl
at rear_right v = v.rr

-- What a message carries, or else the value from before.
abbrev pub newer : {A B : Type 0} → (A → B) → Option A → B → B
newer f none old = old
newer f (some a) old = f a

module _ {n : Floats} where
  open n use {Float}

  -- Which message carries what.
  abbrev pub dynamics_of : Wheel → Message n → Option (InvDynamics n)
  dynamics_of front_left (inv1_dynamics m) = some m
  dynamics_of front_right (inv2_dynamics m) = some m
  dynamics_of rear_left (inv3_dynamics m) = some m
  dynamics_of rear_right (inv4_dynamics m) = some m
  dynamics_of _ _ = none

  abbrev pub temps_of : Wheel → Message n → Option (InvTemps n)
  temps_of front_left (inv1_temps m) = some m
  temps_of front_right (inv2_temps m) = some m
  temps_of rear_left (inv3_temps m) = some m
  temps_of rear_right (inv4_temps m) = some m
  temps_of _ _ = none

  abbrev pub overload_of : Wheel → Message n → Option Float
  overload_of front_left (inv1_overload p) = some p
  overload_of front_right (inv2_overload p) = some p
  overload_of rear_left (inv3_overload p) = some p
  overload_of rear_right (inv4_overload p) = some p
  overload_of _ _ = none

  abbrev pub load_of : Wheel → Message n → Option Float
  load_of front_left (front_suspension m) = some m.left_load_cell
  load_of front_right (front_suspension m) = some m.right_load_cell
  load_of rear_left (rear_suspension m) = some m.left_load_cell
  load_of rear_right (rear_suspension m) = some m.right_load_cell
  load_of _ _ = none

  abbrev pub pot_of : Wheel → Message n → Option Float
  pot_of front_left (front_suspension m) = some m.left_shock_pot
  pot_of front_right (front_suspension m) = some m.right_shock_pot
  pot_of rear_left (rear_suspension m) = some m.left_shock_pot
  pot_of rear_right (rear_suspension m) = some m.right_shock_pot
  pot_of _ _ = none

  abbrev pub input_of : Message n → Option (DriverInput n)
  input_of (pedals_system_data m) =
      some (record { requested_accel = m.accel_pedal; requested_brake = m.brake_pedal })
  input_of _ = none

  abbrev pub steering_of : Message n → Option Float
  steering_of (steering_data m) = some m.steering_analog_raw
  steering_of _ = none

  abbrev pub ready_of : Message n → Option Bool
  ready_of (vcr_data_s is_rtd) = some is_rtd
  ready_of _ = none

  abbrev pub pack_voltage_of : Message n → Option Float
  pack_voltage_of (inv1_status v) = some v
  pack_voltage_of _ = none

  abbrev pub min_cell_of : Message n → Option Float
  min_cell_of (acu_all_data v) = some v
  min_cell_of _ = none

  -- The value of the latest message that carries one, or else the first.
  unfoldable pub latest :
      {A B : Type 0} → (Message n → Option A) → (A → B) → B → List (ℕ × Message n) → B
  latest carried f b [] = b
  latest carried f b ((now, m) ∷ es) = latest carried f (newer f (carried m) b) es

  -- A field that each message sets as `carried` says has the latest value after all of them.
  pub latest-receive_all :
      {A B : Type 0} (field : Tracker n → B) (carried : Message n → Option A) (f : A → B)
      → ((now : ℕ) (m : Message n) (t : Tracker n)
          → field (handle_receive_protobuf_message n now m t) ≡ newer f (carried m) (field t))
      → (es : List (ℕ × Message n)) (t : Tracker n)
      → field (receive_all n es t) ≡ latest carried f (field t) es
  unfolding receive_all latest
  latest-receive_all field carried f step [] t = refl
  latest-receive_all field carried f step ((now, m) ∷ es) t =
      latest-receive_all field carried f step es (handle_receive_protobuf_message n now m t)
      ∙ ap (λ b. latest carried f b es) (step now m t)
