-- ===== src/Checks/Manager.antt =====
-- Runs of the controller manager, with two configurations of the load-cell controller.
use drivebrain_software.Base.{
  ◌≡◌, ◌≢◌, ◌↔◌, refl, arith, true, false, Option, none, some, [], ◌∷◌, get_elem?,
}
use drivebrain_software.Base.Int.{pos}
use drivebrain_software.Floats.Micros.{micro_floats}
use drivebrain_software.Vehicle.{
  ControllerOutput, monostate, no_error, error_torque_too_high, speed_control, all_wheels,
}
use drivebrain_software.LoadCell.Defs.{Config, get_dt_sec}
use drivebrain_software.LoadCell.Defs as LoadCell
use drivebrain_software.Manager.Defs.{
  ControllerOps, Manager, swap_active_controller, can_switch_controller, verify_controller_output,
  check_veh_vec,
}
use drivebrain_software.Manager.Switch.{MaySwitch, can_switch_iff}
use drivebrain_software.Manager.Safety.{IsSafe, calls-IsSafe, calls, swap, step}
use drivebrain_software.Manager.Swap.{Swapped, swap_success, swap_refused}
use drivebrain_software.Checks.Samples.{driving_state, coasting_state}

abbrev pub first_config : Config micro_floats
first_config = record {
  max_torque = pos 21_000_000;
  max_regen_torque = pos 10_000_000;
  rear_torque_scale = pos 1_200_000;
  regen_torque_scale = pos 600_000;
  positive_speed_set = pos 20_000_000_000;
  max_power_kw = pos 60_000_000;
  dt_rate_hz = pos 1000;
  apply_vectoring_in_regen = true;
}

abbrev pub ops : ControllerOps micro_floats (Config micro_floats)
ops = record {
  get_dt_sec = get_dt_sec micro_floats;
  step_controller = λ s c. (LoadCell.step_controller micro_floats c s, c);
}

abbrev pub second_config : Config micro_floats
second_config = record first_config { max_torque = pos 10_000_000 }

abbrev pub manager : Manager micro_floats (Config micro_floats)
manager = record {
  current_controller_index = 0;
  current_ctr_manager_state = record {
    current_status = no_error;
    current_controller_output = monostate;
  };
  controllers = some first_config ∷ some second_config ∷ none ∷ [];
  max_switch_rpm = pos 700_000_000;
  max_torque_req_switch = pos 10_000_000;
  max_accel_req_switch = pos 500_000;
  max_rpm_req_switch = pos 20_000_000_000;
}

pub manager-IsSafe : IsSafe ops manager
manager-IsSafe = (first_config, refl)

-- All three of a swap to a null pointer, one out of range and one that goes through.
calls-IsSafe_example :
    (m : Manager micro_floats (Config micro_floats)) × (calls ops
        (swap 2 coasting_state
          ∷ swap 7 driving_state
          ∷ swap 1 coasting_state
          ∷ step driving_state
          ∷ [])
        manager
      ≡ some m)
    × IsSafe ops m
calls-IsSafe_example =
    calls-IsSafe ops
      (swap 2 coasting_state
        ∷ swap 7 driving_state
        ∷ swap 1 coasting_state
        ∷ step driving_state
        ∷ [])
      manager manager-IsSafe

abbrev output_of : Config micro_floats → ControllerOutput micro_floats
output_of c = LoadCell.step_controller micro_floats c coasting_state

can_switch_iff_example :
    (can_switch_controller manager coasting_state (output_of first_config) (output_of second_config)
      ≡ no_error)
    ↔ MaySwitch manager coasting_state (output_of first_config) (output_of second_config)
can_switch_iff_example =
    can_switch_iff manager coasting_state (output_of first_config) (output_of second_config)

active-first :
    ◌≡◌ {A = Option (Option (Config micro_floats))}
      (get_elem? manager.controllers manager.current_controller_index)
      (some (some first_config))
active-first = refl

second-there :
    ◌≡◌ {A = Option (Option (Config micro_floats))}
      (get_elem? manager.controllers 1)
      (some (some second_config))
second-there = refl

another : manager.current_controller_index ≢ 1
another e = ground arith

may_switch : MaySwitch manager coasting_state (output_of first_config) (output_of second_config)
unfolding LoadCell.step_controller
may_switch = ground arith

-- The second controller active, with its output.
abbrev switched : Manager micro_floats (Config micro_floats)
switched = record manager {
  current_controller_index = 1;
  current_ctr_manager_state = record {
    current_status = no_error;
    current_controller_output = speed_control (record {
      mcu_recv_millis = pos 0;
      desired_rpms = all_wheels (pos 20_000_000_000);
      torque_lim_nm = all_wheels (pos 0);
    });
  };
}

runs_switch : swap_active_controller ops 1 coasting_state manager ≡ some (switched, true)
unfolding swap_active_controller can_switch_controller verify_controller_output check_veh_vec
    LoadCell.step_controller
runs_switch = refl

swap_success_example :
    (new : Config micro_floats) × Swapped ops 1 coasting_state manager switched first_config new
swap_success_example =
    swap_success ops 1 coasting_state manager switched first_config active-first runs_switch

-- At 500 rpm, with half throttle: refused for the torque of the first controller.
abbrev refused : Manager micro_floats (Config micro_floats)
refused = record manager {
  current_ctr_manager_state = record {
    current_status = error_torque_too_high;
    current_controller_output = monostate;
  };
}

runs_refused : swap_active_controller ops 1 driving_state manager ≡ some (refused, false)
unfolding swap_active_controller can_switch_controller verify_controller_output check_veh_vec
    LoadCell.step_controller
runs_refused = refl

swap_refused_example :
    (refused.current_controller_index ≡ manager.current_controller_index)
    × (refused.current_ctr_manager_state.current_controller_output
        ≡ manager.current_ctr_manager_state.current_controller_output)
    × (refused.current_ctr_manager_state.current_status ≢ no_error)
swap_refused_example =
    swap_refused ops 1 driving_state manager refused first_config active-first runs_refused
