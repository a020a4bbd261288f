-- ===== src/Client.antt =====
-- client/: the parts of the HTTP client.
pub mod Head
pub mod Request
pub mod Error
pub mod Scan
pub mod Session
pub mod Protocol
pub mod Parser
