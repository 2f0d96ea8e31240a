-- ===== src/Manager.antt =====
-- drivebrain_core/include/ControllerManager.hpp, ControllerManager.tpp and Controller.hpp: the
-- manager of the controllers, over any kind of controller. `Manager.Defs` has the class, the other
-- children what is proved of it.
pub mod Defs
pub mod Switch
pub mod Safety
pub mod Swap
