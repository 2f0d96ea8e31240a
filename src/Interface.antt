-- ===== src/Interface.antt =====
-- drivebrain_core/src/DrivebrainControllerInterface.cpp: the handler of parameter changes that
-- starts and stops the recording and swaps the controller.
pub mod Defs
pub mod Ready
