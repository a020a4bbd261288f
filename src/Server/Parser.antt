-- ===== src/Server/Parser.antt =====
-- server/parser.rs: the states of a connection, and what each asks the transport for.
pub mod Head
pub mod Reading
pub mod Events
pub mod Decode
pub mod Chunks
pub mod Buffered
pub mod Limits
pub mod Safety
pub mod Whole
pub mod Refusals
pub mod Trickle
pub mod Demand
pub mod Gather
pub mod Gathered
pub mod Overrun
pub mod Closing
pub mod LastRequest
pub mod Phase
pub mod Outcomes
pub mod Lifecycle
use rotor_http.Prelude.{
  ℕ, ◌+◌, Bool, true, false, ◌==◌, if◌then◌else◌, ltb, min, Bytes, crlf, Option, none, some,
  Outcome, ret, panic, ◌>>=◌, ◌>>◌, assert, add_u64,
}
use rotor_http.Buffer.{BufferOps}
use rotor_http.Message.State.{MessageState}
use rotor_http.Message.{Message, is_complete}
use rotor_http.RecvMode.{RecvMode, buffered, progressive}
use rotor_http.Server.Body.{BodyKind, fixed, chunked, upgrade}
pub use rotor_http.Stream.{Expectation, bytes, delimiter, flush, sleep}
use rotor_http.Server.Protocol.{Env, Transport}

abbrev pub max_headers_size : ℕ
max_headers_size = 16384

abbrev pub max_chunk_head : ℕ
max_chunk_head = 128

pub data BodyProgress : Type 0 where
  buffer_fixed : ℕ → BodyProgress
  buffer_chunked : ℕ → ℕ → ℕ → BodyProgress
  progressive_fixed : ℕ → ℕ → BodyProgress
  progressive_chunked : ℕ → ℕ → ℕ → BodyProgress

-- `unimplemented!()` for an upgrade.
unfoldable pub start_body : RecvMode → BodyKind → Outcome BodyProgress
start_body (buffered x) (fixed y) = ret (buffer_fixed y)
start_body (buffered x) chunked = ret (buffer_chunked x 0 0)
start_body (progressive x) (fixed y) = ret (progressive_fixed x y)
start_body (progressive x) chunked = ret (progressive_chunked x 0 0)
start_body mode upgrade = panic

unfoldable pub consumed : ℕ → ℕ
consumed off = if ltb 0 off then off + 2 else 0

pub record ReadBody (Machine Time : Type 0) : Type 0 where
  pub machine : Option Machine
  pub deadline : Time
  pub response : MessageState
  pub progress : BodyProgress
  pub connection_close : Bool

pub data ParserImpl (Machine Time : Type 0) : Type 0 where
  idle : ParserImpl Machine Time
  read_headers : ParserImpl Machine Time
  reading_body : ReadBody Machine Time → ParserImpl Machine Time
  processing : Machine → MessageState → Bool → Time → ParserImpl Machine Time
  done_response : ParserImpl Machine Time

-- `Intent`: close the connection, or go on in a state. The parser is its state with the seed.
pub data Intent (Machine Seed Time : Type 0) : Type 0 where
  done : Intent Machine Seed Time
  of : ParserImpl Machine Time → Seed → Expectation → Time → Intent Machine Seed Time

-- The expectation of each progress; the inner match stands for its patterns with a 0.
unfoldable pub body_expectation : BodyProgress → Outcome Expectation
body_expectation (buffer_fixed x) = ret (bytes x)
body_expectation (buffer_chunked limit off y) =
    if y == 0
    then ret (delimiter (consumed off) crlf (consumed off + max_chunk_head))
    else (do total ← add_u64 off y; wanted ← add_u64 total 2; ret (bytes wanted))
body_expectation (progressive_fixed hint left) = ret (bytes (min hint left))
body_expectation (progressive_chunked hint off left) =
    if left == 0
    then ret (delimiter off crlf (off + max_chunk_head))
    else (do total ← add_u64 off left; wanted ← add_u64 (min hint total) 2; ret (bytes wanted))

module _ (e : Env) where
  open e use {Buf, Machine, Seed, Scope, Time, now, add_time}

  -- An intent, with the scope that the timeouts may have changed.
  abbrev pub Going : Type 0
  Going = Intent Machine Seed Time × Scope

  unfoldable pub intent_idle : Seed → Scope → Going
  intent_idle seed scope =
      let (wait, scope') = e.idle_timeout seed scope in
      (of idle seed (bytes 1) (add_time (now scope) wait), scope')

  unfoldable pub intent_headers : Seed → Scope → ℕ → Going
  intent_headers seed scope n =
      let (wait, scope') = e.header_byte_timeout seed scope in
      (of read_headers seed (bytes (n + 1)) (add_time (now scope) wait), scope')

  unfoldable pub intent_flush : Seed → Scope → Going
  intent_flush seed scope =
      let (wait, scope') = e.send_response_timeout seed scope in
      (of done_response seed (flush 0) (add_time (now scope) wait), scope')

  unfoldable pub intent_body : Seed → ReadBody Machine Time → Outcome (Intent Machine Seed Time)
  intent_body seed body = do
    exp ← body_expectation body.progress
    ret (of (reading_body body) seed exp body.deadline)

  -- The end of a request: wait for the handler, or go on with the connection.
  unfoldable pub complete :
      Seed → Scope → Option Machine → MessageState → Bool → Time → Outcome Going
  complete seed scope (some m) response connection_close deadline =
      ret (of (processing m response connection_close deadline) seed sleep deadline, scope)
  complete seed scope none response connection_close deadline = do
    assert (is_complete response)
    ret (if connection_close then intent_flush seed scope else intent_idle seed scope)
