-- ===== src/Server.antt =====
-- server/: the parts of the HTTP server.
pub mod Error
pub mod Body
pub mod Response
pub mod Scan
pub mod Protocol
pub mod Parser
pub mod Session
