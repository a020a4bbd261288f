-- ===== src/Client/Protocol.antt =====
-- client/protocol.rs, client/connection.rs and what the client's parser takes from outside: the
-- handlers (`Client`, `Requester`), httparse, the transport and the clock.
use rotor_http.Prelude.{ℕ, Bool, Bytes, List, Option, Outcome}
use rotor_http.Buffer.{BufferOps}
use rotor_http.Client.Error.{ProtocolError, ResponseError}
use rotor_http.Client.Head.{Head}
use rotor_http.Client.Request.{Request}
use rotor_http.RecvMode.{RecvMode}
use rotor_http.Stream.{ChunkSize}
use rotor_http.Server.Scan.{Header}

-- `Connection`, with its method `is_idle`.
pub record Connection : Type 0 where
  pub is_idle : Bool

-- What the client wants to do with its connection.
pub data Task (Cli Req Time : Type 0) : Type 0 where
  sleep : Cli → Time → Task Cli Req Time
  request : Cli → Req → Task Cli Req Time
  close : Task Cli Req Time

-- `httparse::Response`, whose fields are `None` until they are parsed, and the answers of its
-- `parse`.
pub record RawResponse : Type 0 where
  pub version : Option ℕ
  pub code : Option ℕ
  pub reason : Option Bytes
  pub headers : List Header

pub data Parsed : Type 0 where
  complete : ℕ → RawResponse → Parsed
  partial failed : Parsed

pub record Transport (Buf : Type 0) : Type 0 where
  pub input : Buf
  pub output : Buf

-- `Cli` is the type that implements `Client` and `Req` the one that implements `Requester`. The
-- scope holds the handlers' context and the clock.
pub record Env : Type 1 where
  pub Buf : Type 0
  pub Cli : Type 0
  pub Req : Type 0
  pub Seed : Type 0
  pub Scope : Type 0
  pub Time : Type 0
  pub Duration : Type 0
  pub Io : Type 0
  pub ops : BufferOps Buf
  pub now : Scope → Time
  pub add_time : Time → Duration → Time
  pub min_time : Time → Time → Time
  pub parse_response : Bytes → Parsed
  pub parse_chunk_size : Bytes → ChunkSize
  pub create : Seed → Scope → Outcome (Cli × Scope)
  pub connection_idle : Cli → Connection → Scope → Outcome (Task Cli Req Time × Scope)
  pub connection_error : Cli → ProtocolError Io → Scope → Outcome Scope
  pub client_wakeup : Cli → Connection → Scope → Outcome (Task Cli Req Time × Scope)
  pub client_timeout : Cli → Connection → Scope → Outcome (Task Cli Req Time × Scope)
  pub connect_timeout : Cli → Scope → Duration × Scope
  pub idle_timeout : Cli → Scope → Duration × Scope
  pub prepare_request : Req → Request Buf → Scope → Outcome (Option Req × Request Buf × Scope)
  pub headers_received :
      Req
      → Head
      → Request Buf
      → Scope
      → Outcome (Option (Req × RecvMode × Time) × Request Buf × Scope)
  pub response_received : Req → Bytes → Request Buf → Scope → Outcome (Request Buf × Scope)
  pub bad_response : Req → ResponseError Io → Scope → Outcome Scope
  pub response_chunk :
      Req → Bytes → Request Buf → Scope → Outcome (Option Req × Request Buf × Scope)
  pub response_end : Req → Request Buf → Scope → Outcome (Request Buf × Scope)
  pub byte_timeout : Req → Scope → Duration × Scope
