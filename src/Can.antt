-- ===== src/Can.antt =====
-- drivebrain_comms/src/CANComms.cpp: CAN frames decoded into protobuf messages and back.
pub mod Defs
pub mod Tables
pub mod Sending
pub mod Frames
pub mod Decoding
pub mod Roundtrip
pub mod Driver
pub mod Startup
pub mod Reading
