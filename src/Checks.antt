-- ===== src/Checks.antt =====
-- Concrete runs of the models: a vehicle, a set of controllers, a parameter file, messages.
pub mod Samples
pub mod Params
pub mod Manager
pub mod LoadCell
pub mod Tracker
pub mod Logger
pub mod Singleton
pub mod Interface
pub mod App
pub mod Vn
pub mod Can
pub mod CommandLine
pub mod Names
pub mod Schema
pub mod Eth
pub mod Recorder
pub mod Sim
pub mod Ending
pub mod CanLink
pub mod Feed
pub mod Sending
