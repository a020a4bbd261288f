-- ===== src/RecvMode.antt =====
-- recvmode.rs: whether a body is buffered whole (up to a size) or handed over in parts (of at
-- least a size).
use rotor_http.Prelude.{ℕ}

pub data RecvMode : Type 0 where
  buffered : ℕ → RecvMode
  progressive : ℕ → RecvMode
