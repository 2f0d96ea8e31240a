-- ===== src/App.antt =====
-- drivebrain_app/src/drivebrain_app.cpp: the control loop, which reads the state, steps the active
-- controller, and sends its output over two CAN buses.
pub mod Defs
pub mod Safety
pub mod Run
pub mod Ending
pub mod Bus
