-- ===== src/Logger.antt =====
-- drivebrain_core/include/MCAPLogger.hpp and drivebrain_core/src/MCAPLogger.cpp: the recorder, with
-- its buffer, its thread and the calls that start and stop it.
pub mod Defs
pub mod Steps
pub mod Conserve
pub mod Drain
pub mod Restart
pub mod Names
pub mod Fresh
pub mod Opening
pub mod Channels
pub mod Wait
pub mod WaitSteps
pub mod Notify
pub mod Destructor
