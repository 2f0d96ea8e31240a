-- ===== src/Schema.antt =====
-- What the recorder and the websocket server say about the messages that they carry: the files of
-- protobuf descriptors, the schemas and the channels (drivebrain_core/src/MCAPLogger.cpp and
-- drivebrain_core/src/FoxgloveServer.cpp, which have the same two helpers), and the JSON schema of
-- the parameters.
pub mod Defs
pub mod Walk
pub mod Files
pub mod Channels
pub mod Topics
pub mod Document
pub mod Valid
pub mod Fits
