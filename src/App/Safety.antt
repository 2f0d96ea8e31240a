-- ===== src/App/Safety.antt =====
-- What reaches the CAN buses, and that the loop goes on.
use drivebrain_software.Base.{
  ℕ, ◌+◌, ◌≤◌, ◌≡◌, refl, arith, ap, ◌∙◌, ◌⊎◌, inl, inr, List, [], ◌∷◌, ◌++◌, Option, none, some,
  Bool, true, false, Bool-cases, if◌then◌else◌,
}
use drivebrain_software.Floats.{Floats}
use drivebrain_software.Vehicle.{VehicleState, ControllerOutput}
use drivebrain_software.Tracker.Clock.{validate_timestamps}
use drivebrain_software.Tracker.Defs.{get_latest_state_and_validity, set_previous_control_output}
use drivebrain_software.Tracker.Stamps.{IsCurrent, validate_timestamps_iff}
use drivebrain_software.Manager.Defs.{Manager, ControllerOps, step_active_controller}
use drivebrain_software.Manager.Safety.{IsSafe, step-IsSafe}
use drivebrain_software.App.Defs.{
  OutMessage, mcap_info, commands, App, Pass, loop_time, next_deadline, send_messages, tick,
}

-- The next deadline is not before now, at least one period after the deadline before, and one of
-- these two times.
pub next_deadline_bounds :
    (steady_now deadline : ℕ)
    → (steady_now ≤ next_deadline steady_now deadline)
      × (deadline + loop_time ≤ next_deadline steady_now deadline)
      × ((next_deadline steady_now deadline ≡ steady_now)
          ⊎ (next_deadline steady_now deadline ≡ deadline + loop_time))
unfolding next_deadline
next_deadline_bounds steady_now deadline = ground arith

pub send_messages-next :
    {M B : Type 0} (send : M → B → Option B) (m : M) (ms : List M) (b : B) {b' : B}
    → send m b ≡ some b'
    → send_messages send (m ∷ ms) b ≡ send_messages send ms b'
unfolding send_messages
send_messages-next send m ms b e =
    ap (λ o. elim o [ none ↦ none | some b' ↦ send_messages send ms b' ]) e

-- If each message can be sent, so can any number of them.
pub send_messages-returns :
    {M B : Type 0} (send : M → B → Option B)
    → ((m : M) (b : B) → (b' : B) × (send m b ≡ some b'))
    → (ms : List M) (b : B) → (b' : B) × (send_messages send ms b ≡ some b')
unfolding send_messages
send_messages-returns send returns [] b = (b, refl)
send_messages-returns send returns (m ∷ ms) b =
    let (b1, e1) = returns m b in
    let (b2, e2) = send_messages-returns send returns ms b1 in (b2, rw (e1, send_messages) e2)

module _ {n : Floats} {B C : Type 0} (ops : ControllerOps n C)
    (estimate : VehicleState n → VehicleState n) (send : OutMessage n → B → Option B) where
  -- The state that the controller is stepped on in a pass.
  abbrev pub seen : Pass n → App n B C → VehicleState n
  seen p a = estimate ((get_latest_state_and_validity n p.now p.between a.tracker).1.0)

  -- The messages `ms` have gone to one bus and the other, and, with the name of the log, to
  -- `core::log`.
  abbrev pub Sends : List (OutMessage n) → Pass n → App n B C → App n B C → Type 0
  Sends ms p a a' =
      (send_messages send ms a.telem_can ≡ some a'.telem_can)
      × (send_messages send ms a.aux_can ≡ some a'.aux_can)
      × (a'.logged ≡ a.logged ++ (ms ++ (mcap_info p.mcap_name ∷ [])))

  -- What a pass does with the output `out` of the active controller.
  pub record Passed (p : Pass n) (a a' : App n B C) (out : ControllerOutput n) : Type 0 where
    pub stepped : step_active_controller ops (seen p a) a.manager ≡ some (a'.manager, out)
    pub safe : IsSafe ops a'.manager
    pub sent :
        (IsCurrent p.now a.tracker.timestamp_array × Sends (commands n out) p a a')
        ⊎ (¬ IsCurrent p.now a.tracker.timestamp_array × Sends [] p a a')
    pub recorded : a'.tracker.vehicle_state.prev_controller_output ≡ out

  -- The state that `tick` builds.
  abbrev passed : Pass n → App n B C → Manager n C × ControllerOutput n → B → B → App n B C
  passed p a (manager, out) telem aux =
      let (tracker, state_and_validity) =
        get_latest_state_and_validity n p.now p.between a.tracker in
      let sent = if state_and_validity.1 then commands n out else [] in
      record {
        tracker = set_previous_control_output n out tracker;
        manager = manager;
        telem_can = telem;
        aux_can = aux;
        logged = a.logged ++ (sent ++ (mcap_info p.mcap_name ∷ []));
        next_tick = next_deadline p.steady_now a.next_tick;
      }

  -- What a pass sends.
  abbrev to_send : Pass n → App n B C → ControllerOutput n → List (OutMessage n)
  to_send p a out =
      if validate_timestamps p.now a.tracker.timestamp_array then commands n out else []

  sent-passed :
      (p : Pass n) (a : App n B C) (r : Manager n C × ControllerOutput n) (telem aux : B)
      → send_messages send (to_send p a r.1) a.telem_can ≡ some telem
      → send_messages send (to_send p a r.1) a.aux_can ≡ some aux
      → (IsCurrent p.now a.tracker.timestamp_array
          × Sends (commands n r.1) p a (passed p a r telem aux))
        ⊎ (¬ IsCurrent p.now a.tracker.timestamp_array × Sends [] p a (passed p a r telem aux))
  unfolding get_latest_state_and_validity
  sent-passed p a r telem aux first second =
      let iff = validate_timestamps_iff p.now a.tracker.timestamp_array in
      elim (Bool-cases (validate_timestamps p.now a.tracker.timestamp_array)) [
        | inl valid ↦ inl (iff.0 valid, (rw valid at first, rw valid at second, rw valid refl))
        | inr invalid ↦ inr (
          (λ current. off_and_on invalid (iff.1 current)),
          (rw invalid at first, rw invalid at second, rw invalid refl),
        )
      ]
    where
      off_and_on : {b : Bool} → b ≡ false → b ≡ true → ⊥
      off_and_on off on = cc

  abbrev with_aux :
      Pass n → App n B C → Manager n C × ControllerOutput n → B → Option B → Option (App n B C)
  with_aux p a r x o = elim o [ none ↦ none | some y ↦ some (passed p a r x y) ]

  tick-passed :
      (p : Pass n) (a : App n B C) (r : Manager n C × ControllerOutput n) (telem aux : B)
      → step_active_controller ops (seen p a) a.manager ≡ some r
      → send_messages send (to_send p a r.1) a.telem_can ≡ some telem
      → send_messages send (to_send p a r.1) a.aux_can ≡ some aux
      → tick ops estimate send p a ≡ some (passed p a r telem aux)
  unfolding tick get_latest_state_and_validity
  tick-passed p a r telem aux e first second =
      ap {B = Option (App n B C)}
        (λ (o : Option (Manager n C × ControllerOutput n)). elim o [
          | none ↦ none
          | some r' ↦ elim (send_messages send (to_send p a r'.1) a.telem_can) [
            | none ↦ none
            | some x ↦ with_aux p a r' x (send_messages send (to_send p a r'.1) a.aux_can)
          ]
        ])
        e
      ∙ ap {B = Option (App n B C)}
          (λ (o : Option B). elim o [
            | none ↦ none
            | some x ↦ with_aux p a r x (send_messages send (to_send p a r.1) a.aux_can)
          ])
          first
      ∙ ap (with_aux p a r telem) second

  -- With an active controller, and drivers whose `send_message` returns, a pass of the loop returns,
  -- and again leaves an active controller. The controller is stepped once, on the latest state. If the
  -- timestamps are current, the messages of its output are sent on both buses and logged; if they are
  -- not, nothing is sent, and only the name of the log is logged. The tracker keeps the output.
  pub tick-Passed :
      ((m : OutMessage n) (b : B) → (b' : B) × (send m b ≡ some b'))
      → (p : Pass n) (a : App n B C) → IsSafe ops a.manager
      → (a' : App n B C) × (out : ControllerOutput n) × (tick ops estimate send p a ≡ some a')
        × Passed p a a' out
  unfolding set_previous_control_output
  tick-Passed returns p a safe =
      let (r, e, safe') = step-IsSafe ops (seen p a) a.manager safe in
      let (telem, first) = send_messages-returns send returns (to_send p a r.1) a.telem_can in
      let (aux, second) = send_messages-returns send returns (to_send p a r.1) a.aux_can in
      (
        passed p a r telem aux,
        r.1,
        tick-passed p a r telem aux e first second,
        record {
          stepped = e;
          safe = safe';
          sent = sent-passed p a r telem aux first second;
          recorded = refl;
        },
      )
