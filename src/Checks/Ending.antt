-- ===== src/Checks/Ending.antt =====
-- Runs of the whole program.
use drivebrain_software.Base.{◌≡◌, refl, true, false, not, ◌&&◌, [], ◌∷◌, if◌then◌else◌}
use drivebrain_software.App.Run.{Conditions, returns, aborts, main}
use drivebrain_software.App.Ending.{comes_to_can, main-car}

-- The car, where everything works and an interrupt comes in the third pass.
abbrev car : Conditions
car = record {
  hootl_enabled = false;
  assertions = false;
  logger = true;
  server = true;
  mcap_name = true;
  eth_drivers = true;
  sim_link = false;
  telem_can = true;
  aux_can = true;
  mode1_init = true;
  gend_controllers = 2;
  num_controllers = 2;
  manager_init = true;
  interrupted = true;
  passes = false ∷ false ∷ true ∷ false ∷ [];
}

main-car_example : main car ≡ (
    if comes_to_can car && car.telem_can
    then aborts
    else if car.assertions && not (car.logger && car.server)
    then aborts
    else returns 1)
main-car_example = main-car car refl
