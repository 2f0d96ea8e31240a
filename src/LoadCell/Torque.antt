-- ===== src/LoadCell/Torque.antt =====
-- The sign of the requested torques, and which configuration fields they depend on.
use drivebrain_software.Base.{Bool, ◌≡◌, refl, true, false, if◌then◌else◌, Bool-cases, inl, inr}
use drivebrain_software.Base.Int.{ℤ}
use drivebrain_software.Floats.{Floats, nought}
use drivebrain_software.Floats.Signs.{IsNonneg, IsNonpos, IsPositive, SignLaws, WidthLaws}
use drivebrain_software.Vehicle.{VehVec, all_wheels, VehicleState, SpeedControlOut, speed_control}
use drivebrain_software.LoadCell.Defs.{
  Config, accel_request, sum_normal, front_scale, drive_torques, vectored_regen_torques,
  plain_regen_torques, step_controller,
}

-- A statement of all four wheels.
pub record OnWheels {A : Type 0} (P : A → Type 0) (v : VehVec A) : Type 0 where
  pub on_fl : P v.fl
  pub on_fr : P v.fr
  pub on_rl : P v.rl
  pub on_rr : P v.rr

module _ {n : Floats} where
  open n use {Float, float, double, float_to_double, double_to_float}

  -- A configuration with torques that are not negative and a scale from 0 to 2, and loads that are
  -- not negative with a positive sum.
  pub record IsUsable (c : Config n) (loads : VehVec Float) : Type 0 where
    pub torque_ok : IsNonneg float c.max_torque
    pub regen_ok : IsNonneg float c.max_regen_torque
    pub scale_low : IsNonneg float c.rear_torque_scale
    pub scale_high : double.lt (double.decimal 2 0) (float_to_double c.rear_torque_scale) ≡ false
    pub loads_ok : OnWheels (IsNonneg float) loads
    pub sum_ok : IsPositive float (sum_normal n loads)

  -- What the controller asks for, by whether throttle minus brake is at least zero.
  abbrev pub Requested : (forward : Bool) → SpeedControlOut n → Type 0
  Requested true out =
      (out.desired_rpms ≡ all_wheels (float.decimal 20000 0))
      × OnWheels (IsNonneg float) out.torque_lim_nm
  Requested false out =
      (out.desired_rpms ≡ all_wheels (float.decimal 0 0))
      × OnWheels (IsNonpos float) out.torque_lim_nm

  module _ (fl : SignLaws float) (db : SignLaws double) (w : WidthLaws n) where
    module _ {c : Config n} {loads : VehVec Float} (u : IsUsable c loads) (request : Float) where
      open u use {torque_ok, regen_ok, scale_low, scale_high, loads_ok, sum_ok}

      share_ok :
          (load : Float)
          → IsNonneg float load
          → IsNonneg float (float.div load (sum_normal n loads))
      share_ok load h = fl.div_nonneg load (sum_normal n loads) h sum_ok

      front_ok : IsNonneg double (front_scale n c)
      unfolding front_scale
      front_ok = db.sub_nonneg (double.decimal 2 0) (float_to_double c.rear_torque_scale) scale_high

      drive_torques-IsNonneg :
          IsNonneg float request → OnWheels (IsNonneg float) (drive_torques n c request loads)
      unfolding drive_torques
      drive_torques-IsNonneg h = record {
        on_fl = front loads.fl loads_ok.on_fl;
        on_fr = front loads.fr loads_ok.on_fr;
        on_rl = rear loads.rl loads_ok.on_rl;
        on_rr = rear loads.rr loads_ok.on_rr;
      }
        where
          pool : Float
          pool = float.mul (float.mul request c.max_torque) (float.decimal 4 0)

          pool_ok : IsNonneg float pool
          pool_ok =
              fl.mul_nonneg _ _ (fl.mul_nonneg request c.max_torque h torque_ok)
                (fl.literal_nonneg 4 0)

          front :
              (load : Float)
              → IsNonneg float load
              → IsNonneg float (
                  double_to_float (
                    double.mul
                      (double.mul (front_scale n c) (float_to_double pool))
                      (float_to_double (float.div load (sum_normal n loads)))))
          front load k = w.narrow_nonneg _ (
              db.mul_nonneg _ _ (db.mul_nonneg _ _ front_ok (w.widen_nonneg pool pool_ok))
                (w.widen_nonneg _ (share_ok load k)))

          rear :
              (load : Float)
              → IsNonneg float load
              → IsNonneg float (
                  float.mul
                    (float.mul c.rear_torque_scale pool)
                    (float.div load (sum_normal n loads)))
          rear load k = fl.mul_nonneg _ _ (fl.mul_nonneg _ _ scale_low pool_ok) (share_ok load k)

      vectored_regen-IsNonpos :
          IsNonpos float request
          → OnWheels (IsNonpos float) (vectored_regen_torques n c request loads)
      unfolding vectored_regen_torques
      vectored_regen-IsNonpos h = record {
        on_fl = front loads.fl loads_ok.on_fl;
        on_fr = front loads.fr loads_ok.on_fr;
        on_rl = rear loads.rl loads_ok.on_rl;
        on_rr = rear loads.rr loads_ok.on_rr;
      }
        where
          share : Float → Float
          share load =
              float.mul (float.mul (float.mul request c.max_regen_torque) (float.decimal 4 0))
                (float.div load (sum_normal n loads))

          share_nonpos : (load : Float) → IsNonneg float load → IsNonpos float (share load)
          share_nonpos load k =
              fl.mul_nonpos _ _
                (fl.mul_nonpos _ _ (fl.mul_nonpos request c.max_regen_torque h regen_ok)
                  (fl.literal_nonneg 4 0))
                (share_ok load k)

          front :
              (load : Float)
              → IsNonneg float load
              → IsNonpos float
                  (double_to_float (double.mul (float_to_double (share load)) (front_scale n c)))
          front load k =
              w.narrow_nonpos _
                (db.mul_nonpos _ _ (w.widen_nonpos (share load) (share_nonpos load k)) front_ok)

          rear :
              (load : Float)
              → IsNonneg float load
              → IsNonpos float (float.mul (share load) c.rear_torque_scale)
          rear load k = fl.mul_nonpos _ _ (share_nonpos load k) scale_low

      plain_regen-IsNonpos :
          IsNonpos float request → OnWheels (IsNonpos float) (plain_regen_torques n c request)
      unfolding plain_regen_torques
      plain_regen-IsNonpos h = record { on_fl = front; on_fr = front; on_rl = rear; on_rr = rear }
        where
          torque : Float
          torque = float.mul request c.max_regen_torque

          torque_nonpos : IsNonpos float torque
          torque_nonpos = fl.mul_nonpos request c.max_regen_torque h regen_ok

          front :
              IsNonpos float
                (double_to_float (double.mul (float_to_double torque) (front_scale n c)))
          front =
              w.narrow_nonpos _ (db.mul_nonpos _ _ (w.widen_nonpos torque torque_nonpos) front_ok)

          rear : IsNonpos float (float.mul torque c.rear_torque_scale)
          rear = fl.mul_nonpos torque c.rear_torque_scale torque_nonpos scale_low

    -- With a usable configuration and usable load cells, the controller always answers with a speed
    -- request: while throttle minus brake is not negative, 20000 rpm and torque limits that are not
    -- negative on all four wheels; else, also for a NaN, 0 rpm and limits that are not positive.
    pub step_controller-Requested :
        (c : Config n) (s : VehicleState n)
        → IsUsable c s.loadcells
        → (out : SpeedControlOut n) × (step_controller n c s ≡ speed_control out)
          × Requested (float.le (nought float) (accel_request n s)) out
    unfolding step_controller
    step_controller-Requested c s u =
        let request = accel_request n s in
        let same = w.widen_reflects request in
        elim (Bool-cases (float.le (nought float) request)) [
          | inl forward ↦ (
            record {
              mcu_recv_millis = s.prev_mcu_recv_millis;
              desired_rpms = all_wheels (float.decimal 20000 0);
              torque_lim_nm = drive_torques n c request s.loadcells;
            },
            rw (same, forward),
            rw forward (refl, drive_torques-IsNonneg u request (fl.nonneg_of_le request forward)),
          )
          | inr back ↦
              let down = fl.nonpos_of_not_le request back in
              let torques =
                if c.apply_vectoring_in_regen
                then vectored_regen_torques n c request s.loadcells
                else plain_regen_torques n c request in
              (
                record {
                  mcu_recv_millis = s.prev_mcu_recv_millis;
                  desired_rpms = all_wheels (float.decimal 0 0);
                  torque_lim_nm = torques;
                },
                rw (same, back),
                rw back (
                  refl,
                  elim (Bool-cases c.apply_vectoring_in_regen) [
                    | inl vectored ↦ rw vectored (vectored_regen-IsNonpos u request down)
                    | inr plain ↦ rw plain (plain_regen-IsNonpos u request down)
                  ],
                ),
              )
        ]

  -- The step ignores four of the eight parameters: the split of the regenerative torque, the speed
  -- set point, the power limit and the rate.
  pub step_controller_ignores :
      (c : Config n) (s : VehicleState n) (regen speed power : Float) (rate : ℤ)
      → step_controller n
          (record c {
            regen_torque_scale = regen;
            positive_speed_set = speed;
            max_power_kw = power;
            dt_rate_hz = rate;
          })
          s
        ≡ step_controller n c s
  unfolding step_controller front_scale
  step_controller_ignores c s regen speed power rate = refl
