-- ===== src/TodoBackend.antt =====
-- examples/todobackend.rs: a handler of the server that keeps a list of entries.
pub mod Store
pub mod Handler
pub mod Answers
pub mod Requests
pub mod Connection
