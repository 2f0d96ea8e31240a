-- ===== src/Tracker/Snapshot.antt =====
-- `get_latest_state_and_validity`, with messages that arrive between its two critical sections, and
-- what a tracker reports whose timestamps were never initialised.
use drivebrain_software.Base.{ℕ, ◌≡◌, refl, ap, Bool, true, List, [], ◌∷◌, ◌++◌}
use drivebrain_software.Floats.{Floats}
use drivebrain_software.Vehicle.{zero_vehicle_state}
use drivebrain_software.Tracker.Messages.{Message}
use drivebrain_software.Tracker.Clock.{Stamps}
use drivebrain_software.Tracker.Defs.{
  Tracker, construct, handle_receive_protobuf_message, receive_all, get_latest_state_and_validity,
}
use drivebrain_software.Tracker.Stamps.{IsCurrent, validate_timestamps_iff}

module _ {n : Floats} where
  pub receive_all-append :
      (es between : List (ℕ × Message n)) (t : Tracker n)
      → receive_all n (es ++ between) t ≡ receive_all n between (receive_all n es t)
  unfolding receive_all
  receive_all-append [] between t = refl
  receive_all-append ((now, m) ∷ es) between t =
      receive_all-append es between (handle_receive_protobuf_message n now m t)

  -- The constructor leaves the timestamps as the memory has them: where that happens to look
  -- current, the tracker reports a valid state, all zeros, before it has received any message.
  pub uninitialised_valid :
      (garbage : Stamps) (now : ℕ)
      → IsCurrent now garbage
      → (get_latest_state_and_validity n now [] (construct n garbage)).1
        ≡ (record (zero_vehicle_state n) { state_is_valid = true }, true)
  unfolding get_latest_state_and_validity construct receive_all
  uninitialised_valid garbage now current =
      ap (λ (v : Bool). (record (zero_vehicle_state n) { state_is_valid = v }, v))
        ((validate_timestamps_iff now garbage).1 current)
