-- ===== src/Sim.antt =====
-- drivebrain_comms/src/SimComms.cpp: the link to a simulated vehicle, over a ZeroMQ socket.
pub mod Defs
pub mod Receive
pub mod Life
