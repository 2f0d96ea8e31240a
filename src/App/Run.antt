-- ===== src/App/Run.antt =====
-- `DrivebrainApp::run`, its destructor, and `main` (drivebrain_app/src/main.cpp) from the point
-- where the arguments are parsed. What the constructors of the parts do is an input.
use drivebrain_software.Base.{
  ℕ, suc, ◌+◌, Bool, true, false, not, ◌&&◌, List, [], ◌∷◌, ◌==◌, if◌then◌else◌,
}

-- Whether the build is the one without hardware and whether its assertions are on (`NDEBUG` not
-- set), which of the parts can be constructed, and when an interrupt (SIGINT) comes: while the parts
-- are constructed, or during which passes of the loop. `mcap_name` is whether `open_new_mcap` comes
-- back (its choice of a name can throw), `eth_drivers` whether all four ports can be bound, and
-- `sim_link` whether the port of the simulation can. A CAN driver needs its name among the parameters
-- and, with hardware, its interface. The other calls do not throw, or are generated code.
pub record Conditions : Type 0 where
  pub hootl_enabled : Bool
  pub assertions : Bool
  pub logger : Bool
  pub server : Bool
  pub mcap_name : Bool
  pub eth_drivers : Bool
  pub sim_link : Bool
  pub telem_can : Bool
  pub aux_can : Bool
  pub mode1_init : Bool
  pub gend_controllers : ℕ
  pub num_controllers : ℕ
  pub manager_init : Bool
  pub interrupted : Bool
  pub passes : List Bool

-- The flag `running`; the singletons that are there; the CAN drivers whose reader thread runs; the
-- passes of the loop that were made; and whether an exception was thrown.
pub record World : Type 0 where
  pub running : Bool
  pub logger : Bool
  pub server : Bool
  pub telem_reader : Bool
  pub aux_reader : Bool
  pub passes_made : ℕ
  pub thrown : Bool

abbrev pub nothing_yet : World
nothing_yet = record {
  running = true;
  logger = false;
  server = false;
  telem_reader = false;
  aux_reader = false;
  passes_made = 0;
  thrown = false;
}

-- `while(running)`: a pass in which the interrupt comes is the last.
unfoldable pub loop_passes : List Bool → ℕ
loop_passes [] = 0
loop_passes (false ∷ ps) = suc (loop_passes ps)
loop_passes (true ∷ ps) = 1

abbrev throws : World → World
throws w = record w { thrown = true }

-- From "running = true" on: the threads are started, and joined when the loop has ended. `_loop`
-- makes no pass if the flag is false.
unfoldable pub run_threads : Conditions → World → World
unfolding loop_passes
run_threads c w =
    let started = record w { running = true } in
    record started {
      running = false;
      passes_made = if started.running then loop_passes c.passes else 0;
    }

-- The controllers. A failed `init` of the first one is only reported.
unfoldable pub make_controllers : Conditions → World → World
unfolding run_threads
make_controllers c w =
    if not (c.gend_controllers + 1 == 1 + c.num_controllers)
    then throws w
    else if c.manager_init
    then run_threads c w
    else throws w

-- The CAN drivers. Without hardware the constructor starts no reader.
unfoldable pub make_can : Conditions → World → World
unfolding make_controllers
make_can c w =
    if c.telem_can
    then (let w' = record w { telem_reader = not c.hootl_enabled } in
        if c.aux_can
        then make_controllers c (record w' { aux_reader = not c.hootl_enabled })
        else throws w')
    else throws w

-- From `open_new_mcap` on: the recording is begun, the Ethernet drivers and, without hardware, the
-- link to the simulation are constructed. The inertial sensor's driver reports its errors.
unfoldable pub make_drivers : Conditions → World → World
unfolding make_can
make_drivers c w =
    if not c.mcap_name
    then throws w
    else if not c.eth_drivers
    then throws w
    else if c.hootl_enabled
    then if c.sim_link then make_can c w else throws w
    else make_can c w

-- `run`. The signal handler stores false in `running`.
unfoldable pub run : Conditions → World → World
unfolding make_drivers
run c w =
    let signalled = record w { running = not c.interrupted } in
    if c.logger
    then (let w1 = record signalled { logger = true } in
        if c.server then make_drivers c (record w1 { server = true }) else throws w1)
    else throws signalled

-- How the program ends: with a result of `main`, or by `assert` or `std::terminate`.
pub data Ending : Type 0 where
  returns : ℕ → Ending
  aborts : Ending

-- The destructor of `DrivebrainApp`, with its assertions on or off: `instance` asserts that a
-- singleton is there, and `destroy`, which uses no object, does nothing if it is not. Then the members
-- are destroyed: `CANComms` has no destructor of its own and never joins its reader, and the
-- destructor of a thread that was not joined calls `std::terminate`. That the destructor of the
-- recorder can wait for ever is in Logger.Destructor.
unfoldable pub destruct : Bool → World → Ending → Ending
destruct assertions w ending =
    if assertions && not (w.logger && w.server)
    then aborts
    else if w.aux_reader
    then aborts
    else if w.telem_reader
    then aborts
    else ending

-- `main`: the app is destroyed when its block is left, by an exception too, which the handler then
-- turns into the result 1.
unfoldable pub main : Conditions → Ending
unfolding run destruct
main c =
    let w = run c nothing_yet in destruct c.assertions w (if w.thrown then returns 1 else returns 0)
