-- ===== src/LoadCell.antt =====
-- drivebrain_control/include/LoadCellTorqueController.hpp and
-- drivebrain_control/src/LoadCellTorqueController.cpp: the controller that splits the driver's
-- torque request over the wheels by their load.
pub mod Defs
pub mod Config
pub mod Torque
