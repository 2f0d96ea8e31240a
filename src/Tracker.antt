-- ===== src/Tracker.antt =====
-- drivebrain_core/include/StateTracker.hpp and drivebrain_core/src/StateTracker.cpp: the class
-- `StateTracker`, which turns incoming messages into the state of the vehicle.
pub mod Messages
pub mod Clock
pub mod Defs
pub mod Stamps
pub mod Sync
pub mod Latest
pub mod Carried
pub mod Fields
pub mod Validity
pub mod Snapshot
