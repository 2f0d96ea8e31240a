-- ===== src/Feed.antt =====
-- What the readers of the buses do with a message: `core::log` of drivebrain_core/include/Telemetry.hpp
-- and the state tracker, together.
pub mod Defs
pub mod Folds
pub mod Bus
