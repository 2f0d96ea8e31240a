-- ===== src/Tracker/Sync.antt =====
-- The published vectors are copies of the raw ones, after every operation.
use drivebrain_software.Base.{ℕ, ◌≡◌, refl, arith, List, [], ◌∷◌}
use drivebrain_software.Floats.{Floats}
use drivebrain_software.Tracker.Messages.{Message, rear_suspension, front_suspension}
use drivebrain_software.Tracker.Clock.{Stamps}
use drivebrain_software.Tracker.Defs.{
  Tracker, construct, handle_receive_protobuf_message, receive_all,
}

module _ {n : Floats} where
  pub record IsSynced (t : Tracker n) : Type 0 where
    pub loads : t.vehicle_state.loadcells ≡ t.raw_input_data.raw_load_cell_values
    pub pots : t.vehicle_state.suspension_potentiometers_mm ≡ t.raw_input_data.raw_shock_pot_values
    pub torques : t.vehicle_state.current_torques_nm ≡ t.raw_input_data.raw_inverter_torques
    pub steering : t.vehicle_state.steering_angle_deg ≡ t.raw_input_data.raw_steering_analog

  pub construct-IsSynced : (garbage : Stamps) → IsSynced (construct n garbage)
  unfolding construct
  construct-IsSynced garbage = record { loads = refl; pots = refl; torques = refl; steering = refl }

  pub handle-IsSynced :
      (now : ℕ) (m : Message n) (t : Tracker n)
      → IsSynced t
      → IsSynced (handle_receive_protobuf_message n now m t)
  unfolding handle_receive_protobuf_message
  handle-IsSynced now (rear_suspension m) t s = record {
    loads = refl;
    pots = refl;
    torques = s.torques;
    steering = s.steering;
  }
  handle-IsSynced now (front_suspension m) t s = record {
    loads = refl;
    pots = refl;
    torques = s.torques;
    steering = s.steering;
  }
  handle-IsSynced now m t s = ground arith

  -- If the published loads, suspension positions, torques and steering angle are copies of the raw
  -- inputs, as the constructor makes them, they are so after any messages.
  pub receive_all-IsSynced :
      (es : List (ℕ × Message n)) (t : Tracker n) → IsSynced t → IsSynced (receive_all n es t)
  unfolding receive_all
  receive_all-IsSynced [] t s = s
  receive_all-IsSynced ((now, m) ∷ es) t s =
      receive_all-IsSynced es (handle_receive_protobuf_message n now m t)
        (handle-IsSynced now m t s)
