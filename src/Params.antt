-- ===== src/Params.antt =====
-- drivebrain_core/src/FoxgloveServer.cpp and drivebrain_core/include/FoxgloveServer.hpp: the
-- parameter server. State: the map `_foxglove_params_map`. The websocket server, its clients and
-- `foxglove::Parameter` are other people's code: `Params.Api` takes the latter as an interface.
pub mod Api
pub mod Db
pub mod Init
pub mod Change
pub mod Kinds
pub mod Stable
pub mod Effect
pub mod Request
pub mod Publish
