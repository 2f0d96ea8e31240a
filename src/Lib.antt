-- ===== src/Lib.antt =====
-- The on-board software of an electric race car (drivebrain): it collects the state of the vehicle
-- from CAN, Ethernet and an inertial sensor, steps a torque controller at 250 Hz, sends the output
-- over CAN, and records everything. This library models its own logic and proves what makes it
-- correct; libraries (Foxglove, MCAP, protobuf, VectorNav) and generated code are parameters.
--
-- The parts and how they interact:
--   * Vehicle (drivebrain_core/include/StateTracker.hpp): the structs that all parts exchange;
--     Literals (drivebrain_core/include/Literals.hpp): constants and unit literals.
--   * Params (drivebrain_core/src/FoxgloveServer.cpp): the parameters, from a JSON file
--     (`Params.Init`), changed by clients (`Params.Change`), read by name (`Params.Db`), published
--     (`Params.Request`). `Params.Api` is the interface of foxglove::Parameter.
--   * Tracker (drivebrain_core/src/StateTracker.cpp): `handle_receive_protobuf_message` takes
--     messages with the time of the clock; `get_latest_state_and_validity` gives the state,
--     with the check of the timestamps in `Tracker.Clock`.
--   * Manager (drivebrain_core/include/ControllerManager.hpp and .tpp): the controllers, of which
--     one is active; `swap_active_controller` and `step_active_controller`. A controller is any
--     type with `ControllerOps`.
--   * LoadCell (drivebrain_control/src/LoadCellTorqueController.cpp): one such controller.
--   * PowerLimit (drivebrain_control/src/SimplePowerLimiter.cpp).
--   * Logger (drivebrain_core/src/MCAPLogger.cpp): the recorder with its thread. `Logger.Steps` is
--     the step relation of all threads that use it; a step is a critical section or one iteration.
--     `Logger.Opening` chooses the name of a file and opens it. `Logger.Wait` divides the steps of
--     the wait and of the calls that end it further.
--   * Feed (drivebrain_core/include/Telemetry.hpp): `core::log`, and the way of a message from a
--     reader to the recorder, the clients and the tracker; `Feed.Bus` has the readers of Can and Sim.
--   * Interface (drivebrain_core/src/DrivebrainControllerInterface.cpp): the handler of parameter
--     changes, over Logger and Manager.
--   * Vn (drivebrain_comms/src/VNComms.cpp): decoding of the inertial sensor's packets.
--   * Can (drivebrain_comms/src/CANComms.cpp): the tables of the DBC file, frames decoded into
--     messages and encoded. A signal brings its own functions on the payload. `Can.Driver` is the
--     driver around them: `_init`, `send_message` and `_receive_handler`.
--   * Eth (drivebrain_comms/src/ETHSendComms.cpp and drivebrain_comms/include/ETHRecvComms.tpp):
--     `Eth.Send` is the queue with its thread and its destructor, whose steps `Eth.Steps` puts in
--     any order; `Eth.Channel` is what it promises; `Eth.Buffer` is the buffer that all messages
--     share; `Eth.Receive` is the receive loop.
--   * Sim (drivebrain_comms/src/SimComms.cpp): the link to a simulated vehicle.
--   * Schema (drivebrain_core/src/MCAPLogger.cpp and drivebrain_core/src/FoxgloveServer.cpp): the
--     sets of descriptor files, the JSON schema of the parameters, the channels of the server;
--     `Logger.Channels` has the channels of a log file. `Schema.Fits` says when a value has the
--     shape of a document.
--   * App (drivebrain_app/src/drivebrain_app.cpp): the control loop, over Tracker and Manager;
--     `App.Bus` puts it on the CAN drivers; `App.Run` is the construction of the parts and the end
--     of the program, with assertions on or off.
--   * Singleton: `create`, `instance` and `destroy`, which six classes share.
--   * CommandLine (drivebrain_app/src/main.cpp): the arguments.
--   * Checks: concrete runs of the models.
--
-- Conventions. Floating-point types are a parameter (`Floats`) with the operations that the code
-- uses, in the code's order and with its conversions; where a proof needs a law it is one of sign
-- that holds of every IEEE 754 value (`Floats.Signs`), and `Floats.Micros` is an instance in
-- millionths. An `int` that comes from 64 bits is wrapped to 32. What ends the program (a null
-- pointer, an index out of the array, an exception that leaves a callback, a running thread that
-- is assigned to) is `none`. Log output to the console is left out. The log thread's bound is the
-- number of messages in its two buffers and four more: to wake, to leave the inner loop, to find
-- the buffer empty, and one to spare. The fuel of `Logger.Names.print` is one more than the number
-- that is printed, which has fewer digits. The fuel of `Schema.Defs.walk` is the number of files
-- that can come up and one more: a round takes one file from the queue, and none enters twice. The
-- thread of the Ethernet sender comes to its sleep within four steps for each message in the queue,
-- one for each in hand, and four more: a batch is taken, sent, and the wait tested again.
--
-- Not modelled: the calls of sockets, serial port and system, which are inputs; the websocket
-- server, the MCAP file format, the register commands of the inertial sensor and its
-- `_configure_INS`, which nothing calls; the MATLAB models.
pub mod Base
pub mod Feed
pub mod Floats
pub mod Vehicle
pub mod Params
pub mod Literals
pub mod Manager
pub mod LoadCell
pub mod Tracker
pub mod Logger
pub mod Checks
pub mod Singleton
pub mod Interface
pub mod App
pub mod PowerLimit
pub mod Vn
pub mod Can
pub mod CommandLine
pub mod Schema
pub mod Eth
pub mod Sim
