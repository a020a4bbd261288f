-- ===== src/Exchange.antt =====
-- What one side sends and the other reads: src/message.rs against the parsers of src/server/parser.rs
-- and src/client/parser.rs; and the two examples that are a client and a server.
pub mod Wire
pub mod Bodies
pub mod Visit
