-- ===== src/Client/Head.antt =====
-- client/head.rs: the kind of a response's body, and the head that the handler sees.
use rotor_http.Prelude.{ℕ, Bool, Bytes, List}
use rotor_http.Version.{Version}
use rotor_http.Server.Scan.{Header}

pub data BodyKind : Type 0 where
  fixed : ℕ → BodyKind
  chunked eof : BodyKind

pub record Head : Type 0 where
  pub version : Version
  pub code : ℕ
  pub reason : Bytes
  pub headers : List Header
  pub body_kind : BodyKind
  pub close : Bool
