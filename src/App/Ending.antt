-- ===== src/App/Ending.antt =====
-- How the program starts and ends.
use drivebrain_software.Base.{◌≡◌, arith, ◌⊎◌, Bool, true, false, not, ◌&&◌, if◌then◌else◌}
use drivebrain_software.App.Run.{
  Conditions, run_threads, make_controllers, make_can, make_drivers, run, returns, aborts, destruct,
  main,
}

-- All parts that can throw are constructed.
abbrev pub AllMade : Conditions → Type 0
AllMade c =
    (c.logger ≡ true)
    × (c.server ≡ true)
    × (c.mcap_name ≡ true)
    × (c.eth_drivers ≡ true)
    × ((c.hootl_enabled ≡ false) ⊎ (c.sim_link ≡ true))
    × (c.telem_can ≡ true)
    × (c.aux_can ≡ true)
    × (c.gend_controllers ≡ c.num_controllers)
    × (c.manager_init ≡ true)

-- What is constructed before the first CAN driver.
abbrev pub comes_to_can : Conditions → Bool
comes_to_can c = c.logger && c.server && c.mcap_name && c.eth_drivers

-- In the build for the car `main` never returns 0. If the first CAN driver starts, the program is
-- aborted when the loop has ended, and also when an exception has been thrown, because the driver's
-- reader thread is not joined. Otherwise `main` returns 1, unless assertions are on and a singleton
-- is missing: then the program is aborted, too.
pub main-car :
    (c : Conditions)
    → c.hootl_enabled ≡ false
    → (main c ≡ (
        if comes_to_can c && c.telem_can
        then aborts
        else if c.assertions && not (c.logger && c.server)
        then aborts
        else returns 1))
unfolding main run make_drivers make_can make_controllers run_threads destruct
main-car c car = ground arith
