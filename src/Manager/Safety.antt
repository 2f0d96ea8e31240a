-- ===== src/Manager/Safety.antt =====
-- Swaps and steps in any order: no null pointer is dereferenced, and what a swap changes.
use drivebrain_software.Base.{
  ℕ, ◌≡◌, ◌≢◌, refl, ap, ◌∙◌, arith, Bool, false, ◌⊎◌, inl, inr, List, [], ◌∷◌, Option, none, some,
  leb, ◌==◌, length, get_elem?, set, length-set, get_elem?-set_self, get_elem?-set_ne,
  lt-length_of_get_elem?, get_elem?_of_lt, Bool-cases, Option-cases,
}
use drivebrain_software.Floats.{Floats}
use drivebrain_software.Vehicle.{
  VehicleState, ControllerOutput, ControllerManagerStatus, no_error,
  error_controller_index_out_of_range, error_requesting_same_ctr_type, error_nullptr_controller,
}
use drivebrain_software.Manager.Defs.{
  Manager, ControllerOps, can_switch_controller, swap_active_controller, attempt_swap,
  step_active_controller, is_no_error, set_status,
}

module _ {n : Floats} {C : Type 0} (ops : ControllerOps n C) where
  open ops use {step_controller}

  -- The active controller is there.
  abbrev pub IsSafe : Manager n C → Type 0
  IsSafe m = (c : C) × (get_elem? m.controllers m.current_controller_index ≡ some (some c))

  attempt_swap-IsSafe :
      (i : ℕ) (input : VehicleState n) (m : Manager n C) (new current : C)
      → m.current_controller_index ≢ i
      → get_elem? m.controllers i ≡ some (some new)
      → get_elem? m.controllers m.current_controller_index ≡ some (some current)
      → IsSafe (attempt_swap ops i input m new current).0
  unfolding attempt_swap
  attempt_swap-IsSafe i input m new current ne hi hc =
      let new' = (step_controller input new).1 in
      let current' = (step_controller input current).1 in
      let old = m.current_controller_index in
      let once = set m.controllers i (some new') in
      let fits = lt-length_of_get_elem? m.controllers old (some current) hc in
      let kept : get_elem? (set once old (some current')) old ≡ some (some current') =
        get_elem?-set_self once old (some current')
          (omega (arith, length-set m.controllers i (some new'))) in
      let moved : get_elem? (set once old (some current')) i ≡ some (some new') =
        get_elem?-set_ne once old i (some current') ne
        ∙ get_elem?-set_self m.controllers i (some new')
            (lt-length_of_get_elem? m.controllers i (some new) hi) in
      elim (Bool-cases (
        is_no_error (
          can_switch_controller m input (step_controller input current).0
            (step_controller input new).0))) [
              | inl allowed ↦ rw (allowed) (new', moved)
              | inr refused ↦ rw (refused) (current', kept)
            ]

  -- A swap request that finds an active controller is refused at once, or weighs the two outputs.
  pub swap-cases :
      (i : ℕ) (input : VehicleState n) (m : Manager n C) (current : C)
      → get_elem? m.controllers m.current_controller_index ≡ some (some current)
      → ((s : ControllerManagerStatus) × (s ≢ no_error)
          × (swap_active_controller ops i input m ≡ some (set_status m s, false)))
        ⊎ ((new : C) × (m.current_controller_index ≢ i)
            × (get_elem? m.controllers i ≡ some (some new))
            × (swap_active_controller ops i input m
                ≡ some (attempt_swap ops i input m new current)))
  unfolding swap_active_controller
  swap-cases i input m current hc = elim (Bool-cases (leb (length m.controllers) i)) [
    | inl out ↦ inl (error_controller_index_out_of_range, (λ e. cc), rw out)
    | inr inside ↦ elim (Bool-cases (m.current_controller_index == i)) [
      | inl same ↦ inl (error_requesting_same_ctr_type, (λ e. cc), rw (inside, same))
      | inr other ↦
          let (slot, found) = get_elem?_of_lt m.controllers i (ground arith) in
          elim (Option-cases slot) [
            | inl null ↦
                let e = found ∙ ap some null in
                inl (error_nullptr_controller, (λ e. cc), rw (inside, other, e))
            | inr (new, there) ↦
                let e = found ∙ ap some there in
                inr (new, (λ e. ground arith), e, rw (inside, other, e, hc))
          ]
    ]
  ]

  -- With an active controller a swap request, whatever its index, returns, and leaves one.
  pub swap-IsSafe :
      (i : ℕ) (input : VehicleState n) (m : Manager n C)
      → IsSafe m
      → (r : Manager n C × Bool) × (swap_active_controller ops i input m ≡ some r) × IsSafe r.0
  swap-IsSafe i input m (current, hc) = elim (swap-cases i input m current hc) [
    | inl (s, failed, e) ↦ (_, e, (current, hc))
    | inr (new, ne, found, e) ↦ (_, e, attempt_swap-IsSafe i input m new current ne found hc)
  ]

  -- The same of a step of the active controller.
  pub step-IsSafe :
      (input : VehicleState n) (m : Manager n C)
      → IsSafe m
      → (r : Manager n C × ControllerOutput n) × (step_active_controller ops input m ≡ some r)
        × IsSafe r.0
  unfolding step_active_controller
  step-IsSafe input m (current, hc) =
      let current' = (step_controller input current).1 in
      (
        (
          record m { controllers = set m.controllers m.current_controller_index (some current') },
          (step_controller input current).0,
        ),
        rw (hc, step_active_controller),
        (
          current',
          get_elem?-set_self m.controllers m.current_controller_index (some current')
              (lt-length_of_get_elem? m.controllers m.current_controller_index (some current) hc),
        ),
      )

  -- The calls that the main loop and the controller interface make.
  pub data Call : Type 0 where
    swap : ℕ → VehicleState n → Call
    step : VehicleState n → Call

  unfoldable pub call : Call → Manager n C → Option (Manager n C)
  call (swap i input) m = elim (swap_active_controller ops i input m) [
    | none ↦ none
    | some r ↦ some r.0
  ]
  call (step input) m = elim (step_active_controller ops input m) [
    | none ↦ none
    | some r ↦ some r.0
  ]

  unfoldable pub calls : List Call → Manager n C → Option (Manager n C)
  unfolding call
  calls [] m = some m
  calls (c ∷ cs) m = elim (call c m) [ none ↦ none | some m' ↦ calls cs m' ]

  call-IsSafe :
      (c : Call) (m : Manager n C)
      → IsSafe m
      → (m' : Manager n C) × (call c m ≡ some m') × IsSafe m'
  unfolding call
  call-IsSafe (swap i input) m h =
      let (r, e, h') = swap-IsSafe i input m h in (r.0, rw (e, call), h')
  call-IsSafe (step input) m h = let (r, e, h') = step-IsSafe input m h in (r.0, rw (e, call), h')

  -- From a manager whose active controller is there, no sequence of swap requests and steps, with
  -- any indices and vehicle states, dereferences a null pointer or leaves the array.
  pub calls-IsSafe :
      (cs : List Call) (m : Manager n C)
      → IsSafe m
      → (m' : Manager n C) × (calls cs m ≡ some m') × IsSafe m'
  unfolding calls
  calls-IsSafe [] m h = (m, refl, h)
  calls-IsSafe (c ∷ cs) m h =
      let (m1, e, h1) = call-IsSafe c m h in
      let (m2, e2, h2) = calls-IsSafe cs m1 h1 in (m2, rw (e, calls) e2, h2)
