-- ===== src/App/Bus.antt =====
-- The control loop over the CAN drivers.
use drivebrain_software.Base.{
  ℕ, suc, ◌≡◌, refl, ap, sym, ◌∙◌, inl, inr, String, List, [], ◌∷◌, ◌++◌, Option, none, some, Dict,
}
use mathlib.Core.Option.{some-injective}
use drivebrain_software.Floats.{Floats}
use drivebrain_software.Vehicle.{VehicleState, ControllerOutput}
use drivebrain_software.Manager.Defs.{ControllerOps}
use drivebrain_software.Manager.Safety.{IsSafe}
use drivebrain_software.Can.Defs.{DbcMessage, Value, CanFrame, WriteResult, again, init_tables}
use drivebrain_software.Can.Driver.{Output, send_message}
use drivebrain_software.Can.Sending.{IsEncodable, send_message-frames}
use drivebrain_software.App.Defs.{OutMessage, App, Pass, send_messages, commands, loop}
use drivebrain_software.App.Safety.{Passed, send_messages-next, tick-Passed}

-- A CAN driver while the loop uses it: its output, and what each call of `write` will do.
pub record Bus (n : Floats) (D : Type 0) : Type 0 where
  pub output : Output n D
  pub outcome : ℕ → WriteResult
  pub calls : ℕ

module _ {n : Floats} {D : Type 0} (ms : List (DbcMessage n D)) (empty : CanFrame n D)
    (short_name : OutMessage n → String) (fields : OutMessage n → Dict (Value n D)) where
  -- `CANComms::send_message`, for the messages that the loop makes; the tables are those of the DBC
  -- file, and the name and the fields of a message are what protobuf gives.
  unfoldable pub send : OutMessage n → Bus n D → Option (Bus n D)
  send m b =
      elim (send_message n D (init_tables n D ms) empty (short_name m) (fields m)
        (b.outcome b.calls) b.output) [
          | none ↦ none
          | some out ↦ some (record b { output = out; calls = suc b.calls })
        ]

  -- A message that the loop can make has a field for each signal that the DBC file gives it.
  abbrev pub HasSignals : Type 0
  HasSignals =
      (m : OutMessage n)
      → IsEncodable ms empty
          (record { short_name = short_name m; fields = fields m; result = again })

  send-frames :
      HasSignals
      → (m : OutMessage n)
      → (fs : List (CanFrame n D)) × ((b : Bus n D)
          → (b' : Bus n D) × (send m b ≡ some b') × (b'.output.frames ≡ b.output.frames ++ fs))
  unfolding send
  send-frames has m =
      let (fs, sends) =
        send_message-frames ms empty
          (record { short_name = short_name m; fields = fields m; result = again }) (has m) in
      (
        fs,
        λ b.
            let (out, e, grows) = sends (b.outcome b.calls) b.output in
            (
              record b { output = out; calls = suc b.calls },
              ap {B = Option (Bus n D)}
                  (λ (o : Option (Output n D)). elim o [
                    | none ↦ none
                    | some out ↦ some (record b { output = out; calls = suc b.calls })
                  ])
                  e,
              grows,
            ),
      )

  -- Two buses that were given the same frames are given the same again.
  send_messages-same :
      HasSignals
      → (l : List (OutMessage n)) (b c : Bus n D) {b' c' : Bus n D}
      → b.output.frames ≡ c.output.frames
      → send_messages send l b ≡ some b'
      → send_messages send l c ≡ some c'
      → b'.output.frames ≡ c'.output.frames
  unfolding send_messages
  send_messages-same has [] b c {b' = b'} {c' = c'} same e e' =
      ap (λ (x : Bus n D). x.output.frames) (sym (some-injective b b' e))
      ∙ same
      ∙ ap (λ (x : Bus n D). x.output.frames) (some-injective c c' e')
  send_messages-same has (m ∷ l) b c same e e' =
      let (fs, sends) = send-frames has m in
      let (b1, does, grows) = sends b in
      let (c1, does', grows') = sends c in
      send_messages-same has l b1 c1 (grows ∙ ap (λ l. l ++ fs) same ∙ sym grows')
        (sym (send_messages-next send m l b does) ∙ e)
        (sym (send_messages-next send m l c does') ∙ e')

  module _ {C : Type 0} (ops : ControllerOps n C) (estimate : VehicleState n → VehicleState n) where
    -- From an active controller, and with messages that have a field for each signal that the DBC
    -- file gives them, the loop goes on for any number of passes, whatever messages arrive, whatever
    -- the clocks say and whatever the writes on the buses do. If the two buses were given the same
    -- frames before, they still are.
    pub loop-goes_on :
        HasSignals
        → (ps : List (Pass n)) (a : App n (Bus n D) C) → IsSafe ops a.manager
        → a.telem_can.output.frames ≡ a.aux_can.output.frames
        → (a' : App n (Bus n D) C) × (loop ops estimate send ps a ≡ some a')
          × IsSafe ops a'.manager
          × (a'.telem_can.output.frames ≡ a'.aux_can.output.frames)
    unfolding loop
    loop-goes_on has [] a safe same = (a, refl, safe, same)
    loop-goes_on has (p ∷ ps) a safe same =
        let (a1, out, e, done) = tick-Passed ops estimate send returns p a safe in
        let (a2, e2, safe2, same2) = loop-goes_on has ps a1 done.safe (both out done) in
        (a2, rw (e, loop) e2, safe2, same2)
      where
        returns : (m : OutMessage n) (b : Bus n D) → (b' : Bus n D) × (send m b ≡ some b')
        returns m b = let (fs, sends) = send-frames has m in let (b', e, _) = sends b in (b', e)

        both :
            {a1 : App n (Bus n D) C} (out : ControllerOutput n)
            → Passed ops estimate send p a a1 out
            → a1.telem_can.output.frames ≡ a1.aux_can.output.frames
        both out done = elim (Passed.sent done) [
          | inl (current, (first, second, logged)) ↦
              send_messages-same has (commands n out) a.telem_can a.aux_can same first second
          | inr (late, (first, second, logged)) ↦
              send_messages-same has [] a.telem_can a.aux_can same first second
        ]
