-- ===== src/Server/Protocol.antt =====
-- server/protocol.rs, server/request.rs and what the server's parser takes from outside: the
-- handler (`Server`), the header parser (httparse), the transport and the clock (rotor).
use rotor_http.Prelude.{ℕ, Bytes, List, Option, Outcome}
use rotor_http.Buffer.{BufferOps}
use rotor_http.Message.{Message}
use rotor_http.RecvMode.{RecvMode}
use rotor_http.Version.{Version}
use rotor_http.Server.Body.{BodyKind}
use rotor_http.Server.Error.{RequestError}
pub use rotor_http.Stream.{ChunkSize}
use rotor_http.Server.Scan.{Header, RawRequest}

-- The request as the handler sees it.
pub record Head (Addr : Type 0) : Type 0 where
  pub client : Option Addr
  pub version : Version
  pub method : Bytes
  pub scheme : Bytes
  pub path : Bytes
  pub headers : List Header
  pub body_kind : BodyKind

-- The answers of `Request::parse`.
pub data Parsed (E : Type 0) : Type 0 where
  complete : ℕ → RawRequest → Parsed E
  partial : Parsed E
  failed : E → Parsed E

pub record Transport (Buf Addr : Type 0) : Type 0 where
  pub input : Buf
  pub output : Buf
  pub peer : Option Addr

-- The scope holds the handler's context and the clock; a handler may change it, and the response.
pub record Env : Type 1 where
  pub Buf : Type 0
  pub Machine : Type 0
  pub Seed : Type 0
  pub Scope : Type 0
  pub Time : Type 0
  pub Duration : Type 0
  pub Addr : Type 0
  pub ParseError : Type 0
  pub ops : BufferOps Buf
  pub now : Scope → Time
  pub add_time : Time → Duration → Time
  pub parse_request : Bytes → Parsed ParseError
  pub parse_chunk_size : Bytes → ChunkSize
  pub headers_received :
      Seed
      → Head Addr
      → Message Buf
      → Scope
      → Outcome (Option (Machine × RecvMode × Time) × Message Buf × Scope)
  pub request_received :
      Machine → Bytes → Message Buf → Scope → Outcome (Option Machine × Message Buf × Scope)
  pub bad_request : Machine → Message Buf → Scope → Outcome (Message Buf × Scope)
  pub request_chunk :
      Machine → Bytes → Message Buf → Scope → Outcome (Option Machine × Message Buf × Scope)
  pub request_end : Machine → Message Buf → Scope → Outcome (Option Machine × Message Buf × Scope)
  pub timeout :
      Machine → Message Buf → Scope → Outcome (Option (Machine × Time) × Message Buf × Scope)
  pub wakeup : Machine → Message Buf → Scope → Outcome (Option Machine × Message Buf × Scope)
  pub emit_error_page :
      RequestError ParseError → Message Buf → Seed → Scope → Outcome (Message Buf × Scope)
  pub idle_timeout : Seed → Scope → Duration × Scope
  pub header_byte_timeout : Seed → Scope → Duration × Scope
  pub send_response_timeout : Seed → Scope → Duration × Scope
