-- ===== src/Vn.antt =====
-- drivebrain_comms/src/VNComms.cpp: the driver of the VectorNav inertial sensor.
pub mod Defs
pub mod Status
pub mod Driver
