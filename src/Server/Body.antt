-- ===== src/Server/Body.antt =====
-- server/body.rs: the kind of a request's body.
use rotor_http.Prelude.{ℕ}

pub data BodyKind : Type 0 where
  fixed : ℕ → BodyKind
  chunked upgrade : BodyKind
