-- ===== src/Manager/Swap.antt =====
-- What a swap that succeeds has checked, and what one that is refused leaves alone.
use drivebrain_software.Base.{
  ℕ, ◌≡◌, ◌≢◌, arith, true, false, inl, inr, some, get_elem?, lt-length_of_get_elem?,
}
use drivebrain_software.Floats.{Floats}
use drivebrain_software.Vehicle.{VehicleState, no_error}
use drivebrain_software.Manager.Defs.{Manager, ControllerOps, swap_active_controller, attempt_swap}
use drivebrain_software.Manager.Switch.{MaySwitch, can_switch_iff}
use drivebrain_software.Manager.Safety.{swap-cases}

module _ {n : Floats} {C : Type 0} (ops : ControllerOps n C) where
  open ops use {step_controller}

  -- What must hold of a swap to index `i` that makes `new` the active controller.
  pub record Swapped (i : ℕ) (input : VehicleState n) (m m' : Manager n C) (current new : C)
      : Type 0 where
    pub another : m.current_controller_index ≢ i
    pub present : get_elem? m.controllers i ≡ some (some new)
    pub allowed : MaySwitch m input (step_controller input current).0 (step_controller input new).0
    pub active : m'.current_controller_index ≡ i
    pub status : m'.current_ctr_manager_state.current_status ≡ no_error
    pub output :
        m'.current_ctr_manager_state.current_controller_output ≡ (step_controller input new).0

  attempt_swap-true :
      (i : ℕ) (input : VehicleState n) (m m' : Manager n C) (new current : C)
      → m.current_controller_index ≢ i
      → get_elem? m.controllers i ≡ some (some new)
      → attempt_swap ops i input m new current ≡ (m', true)
      → Swapped i input m m' current new
  unfolding attempt_swap
  attempt_swap-true i input m m' new current ne found e =
      let previous = (step_controller input current).0 in
      let next = (step_controller input new).0 in
      let verdict = can_switch_iff m input previous next in ground (arith, verdict)

  -- A swap that succeeds was asked for another controller, which is there, on a car that may switch;
  -- that controller is then active, its output is kept, and the status is `NO_ERROR`.
  pub swap_success :
      (i : ℕ) (input : VehicleState n) (m m' : Manager n C) (current : C)
      → get_elem? m.controllers m.current_controller_index ≡ some (some current)
      → swap_active_controller ops i input m ≡ some (m', true)
      → (new : C) × Swapped i input m m' current new
  swap_success i input m m' current hc done = elim (swap-cases ops i input m current hc) [
    | inl (s, failed, e) ↦ absurd (cc)
    | inr (new, ne, found, e) ↦
        (new, attempt_swap-true i input m m' new current ne found (ground arith))
  ]

  -- Asked for another controller that is there, on a car that may switch, the swap succeeds.
  pub swap_accepts :
      (i : ℕ) (input : VehicleState n) (m : Manager n C) (current new : C)
      → get_elem? m.controllers m.current_controller_index ≡ some (some current)
      → get_elem? m.controllers i ≡ some (some new)
      → m.current_controller_index ≢ i
      → MaySwitch m input (step_controller input current).0 (step_controller input new).0
      → (m' : Manager n C) × (swap_active_controller ops i input m ≡ some (m', true))
  unfolding swap_active_controller attempt_swap
  swap_accepts i input m current new hc hi ne may =
      let previous = (step_controller input current).0 in
      let next = (step_controller input new).0 in
      let verdict = (can_switch_iff m input previous next).1 may in
      (
        (attempt_swap ops i input m new current).0,
        ground (arith, lt-length_of_get_elem? m.controllers i (some new) hi),
      )

  attempt_swap-false :
      (i : ℕ) (input : VehicleState n) (m m' : Manager n C) (new current : C)
      → attempt_swap ops i input m new current ≡ (m', false)
      → (m'.current_controller_index ≡ m.current_controller_index)
        × (m'.current_ctr_manager_state.current_controller_output
            ≡ m.current_ctr_manager_state.current_controller_output)
        × (m'.current_ctr_manager_state.current_status ≢ no_error)
  unfolding attempt_swap
  attempt_swap-false i input m m' new current e = ground arith

  -- A refused swap keeps the active controller and the recorded output, and leaves an error in the
  -- status.
  pub swap_refused :
      (i : ℕ) (input : VehicleState n) (m m' : Manager n C) (current : C)
      → get_elem? m.controllers m.current_controller_index ≡ some (some current)
      → swap_active_controller ops i input m ≡ some (m', false)
      → (m'.current_controller_index ≡ m.current_controller_index)
        × (m'.current_ctr_manager_state.current_controller_output
            ≡ m.current_ctr_manager_state.current_controller_output)
        × (m'.current_ctr_manager_state.current_status ≢ no_error)
  swap_refused i input m m' current hc done = elim (swap-cases ops i input m current hc) [
    | inl (s, failed, e) ↦ ground arith
    | inr (new, ne, found, e) ↦ attempt_swap-false i input m m' new current (ground arith)
  ]
