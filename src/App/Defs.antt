-- ===== src/App/Defs.antt =====
-- `DrivebrainApp::_loop`. The estimators are generated code: a parameter. `core::log` is taken as
-- the list of what is logged.
use drivebrain_software.Base.{
  ℕ, ◌+◌, String, List, [], ◌∷◌, ◌++◌, Option, none, some, ltb, if◌then◌else◌,
}
use drivebrain_software.Floats.{Floats}
use drivebrain_software.Vehicle.{
  VehVec, VehicleState, ControllerOutput, speed_control, torque_control, monostate,
}
use drivebrain_software.Tracker.Messages.{Message}
use drivebrain_software.Tracker.Defs.{
  Tracker, get_latest_state_and_validity, set_previous_control_output,
}
use drivebrain_software.Manager.Defs.{Manager, ControllerOps, step_active_controller}

module _ (n : Floats) where
  open n use {Float}

  -- The messages that the loop makes: `drivebrain_speed_set_input`, `drivebrain_torque_lim_input`,
  -- `drivebrain_desired_torque_input` and `McapInfo`.
  pub data OutMessage : Type 0 where
    speed_set_input : VehVec Float → OutMessage
    torque_lim_input : VehVec Float → OutMessage
    desired_torque_input : VehVec Float → OutMessage
    mcap_info : String → OutMessage

  -- The two branches on the variant, in the order of the calls of `send_message`.
  unfoldable pub commands : ControllerOutput n → List OutMessage
  commands (speed_control out) =
      speed_set_input out.desired_rpms ∷ torque_lim_input out.torque_lim_nm ∷ []
  commands (torque_control out) = desired_torque_input out.desired_torques_nm ∷ []
  commands monostate = []

  -- What the loop works on, with CAN drivers of type `B`. `logged` are the messages given to
  -- `core::log`, and `next_tick` is the deadline, in microseconds.
  pub record App (B C : Type 0) : Type 0 where
    pub tracker : Tracker n
    pub manager : Manager n C
    pub telem_can : B
    pub aux_can : B
    pub logged : List OutMessage
    pub next_tick : ℕ

-- What a pass of the loop meets: the two readings of the clocks, the messages that arrive between
-- the critical sections of the tracker, and the name of the log.
pub record Pass (n : Floats) : Type 0 where
  pub now : ℕ
  pub between : List (ℕ × Message n)
  pub mcap_name : String
  pub steady_now : ℕ

-- `(int) (0.004 * 1000000.0f)`
abbrev pub loop_time : ℕ
loop_time = 4000

-- The deadline after a pass: it is moved to `now` on an overrun.
unfoldable pub next_deadline : (steady_now deadline : ℕ) → ℕ
next_deadline steady_now deadline =
    let next = deadline + loop_time in if ltb next steady_now then steady_now else next

-- `send_message` for one message after the other; `none` is a null pointer that is dereferenced.
unfoldable pub send_messages : {M B : Type 0} → (M → B → Option B) → List M → B → Option B
send_messages send [] b = some b
send_messages send (m ∷ ms) b = elim (send m b) [ none ↦ none | some b' ↦ send_messages send ms b' ]

module _ {n : Floats} {B C : Type 0} (ops : ControllerOps n C)
    (estimate : VehicleState n → VehicleState n) (send_message : OutMessage n → B → Option B) where
  -- One pass of the loop, up to `sleep_until`. Messages that other threads handle after the state
  -- was read belong to the next pass; they do not touch the field that this pass writes. Each branch
  -- on the variant sends on one bus, then on the other, then logs.
  unfoldable pub tick : Pass n → App n B C → Option (App n B C)
  unfolding commands next_deadline send_messages
  tick p a =
      let (tracker, state_and_validity) =
        get_latest_state_and_validity n p.now p.between a.tracker in
      elim (step_active_controller ops (estimate (state_and_validity.0)) a.manager) [
        | none ↦ none
        | some (manager, cmd_out) ↦
            let sent = if state_and_validity.1 then commands n cmd_out else [] in
            elim (send_messages send_message sent a.telem_can) [
              | none ↦ none
              | some telem_can ↦ elim (send_messages send_message sent a.aux_can) [
                | none ↦ none
                | some aux_can ↦ some (record {
                  tracker = set_previous_control_output n cmd_out tracker;
                  manager = manager;
                  telem_can = telem_can;
                  aux_can = aux_can;
                  logged = a.logged ++ (sent ++ (mcap_info p.mcap_name ∷ []));
                  next_tick = next_deadline p.steady_now a.next_tick;
                })
              ]
            ]
      ]

  -- The loop while `running` is true.
  unfoldable pub loop : List (Pass n) → App n B C → Option (App n B C)
  unfolding tick
  loop [] a = some a
  loop (p ∷ ps) a = elim (tick p a) [ none ↦ none | some a' ↦ loop ps a' ]
