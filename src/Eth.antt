-- ===== src/Eth.antt =====
-- The Ethernet drivers: drivebrain_comms/src/ETHSendComms.cpp with its queue
-- (drivebrain_core/include/DriverBus.hpp), and drivebrain_comms/include/ETHRecvComms.tpp.
pub mod Send
pub mod Steps
pub mod Channel
pub mod Refines
pub mod Live
pub mod Drain
pub mod Stuck
pub mod Buffer
pub mod Receive
