-- ===== src/Client/Parser.antt =====
-- client/parser.rs: the states of a connection, and what each asks the transport for.
pub mod Head
pub mod Reading
pub mod Events
pub mod Chunks
pub mod Buffered
pub mod Phase
pub mod Lifecycle
pub mod Safety
pub mod Limits
pub mod Arrivals
pub mod Repeats
use rotor_http.Prelude.{
  ℕ, ◌+◌, Bool, true, false, ◌==◌, if◌then◌else◌, ltb, min, Bytes, codes, crlf, Option, none, some,
  Outcome, ret, panic, ◌>>=◌, ◌>>◌, add_u64,
}
use rotor_http.Client.Head.{BodyKind, fixed, chunked, eof}
use rotor_http.Client.Protocol.{Env, Transport, Task, sleep, request, close}
use rotor_http.Client.Request.{Request}
use rotor_http.Message.State.{MessageState}
use rotor_http.Message.{Message, is_complete}
use rotor_http.RecvMode.{RecvMode, buffered, progressive}
use rotor_http.Stream.{Expectation}

abbrev pub max_headers_size : ℕ
max_headers_size = 16384

abbrev pub max_chunk_head : ℕ
max_chunk_head = 128

-- An empty line: the end of the headers.
abbrev pub head_end : Bytes
head_end = codes "\r\n\r\n"

pub data BodyProgress : Type 0 where
  buffer_fixed : ℕ → BodyProgress
  buffer_eof : ℕ → BodyProgress
  buffer_chunked : ℕ → ℕ → ℕ → BodyProgress
  progressive_fixed : ℕ → ℕ → BodyProgress
  progressive_eof : ℕ → BodyProgress
  progressive_chunked : ℕ → ℕ → ℕ → BodyProgress

unfoldable pub start_body : RecvMode → BodyKind → BodyProgress
start_body (buffered x) (fixed y) = buffer_fixed y
start_body (buffered x) chunked = buffer_chunked x 0 0
start_body (buffered x) eof = buffer_eof x
start_body (progressive x) (fixed y) = progressive_fixed x y
start_body (progressive x) chunked = progressive_chunked x 0 0
start_body (progressive x) eof = progressive_eof x

unfoldable pub consumed : ℕ → ℕ
consumed off = if ltb 0 off then off + 2 else 0

pub record ReadHeaders (Req : Type 0) : Type 0 where
  pub machine : Req
  pub request : MessageState
  pub is_head : Option Bool

pub record Response (Req Time : Type 0) : Type 0 where
  pub progress : BodyProgress
  pub machine : Req
  pub deadline : Time
  pub request : MessageState

pub data ParserImpl (Req Time : Type 0) : Type 0 where
  connecting : Time → ParserImpl Req Time
  idle : Time → ParserImpl Req Time
  read_headers : ReadHeaders Req → ParserImpl Req Time
  response : Response Req Time → ParserImpl Req Time
  flushing : Time → ParserImpl Req Time

-- `Intent`: close the connection, or go on in a state. The parser is its state with the client.
pub data Intent (Cli Req Time : Type 0) : Type 0 where
  done : Intent Cli Req Time
  of : Cli → ParserImpl Req Time → Expectation → Time → Intent Cli Req Time

-- The expectation of each progress; the inner match stands for its patterns with a 0.
unfoldable pub body_expectation : BodyProgress → Outcome Expectation
body_expectation (buffer_fixed x) = ret (Expectation.bytes x)
body_expectation (buffer_eof x) = ret (Expectation.bytes x)
body_expectation (buffer_chunked limit off y) =
    if y == 0
    then ret (Expectation.delimiter (consumed off) crlf (consumed off + max_chunk_head))
    else (do total ← add_u64 off y; wanted ← add_u64 total 2; ret (Expectation.bytes wanted))
body_expectation (progressive_fixed hint left) = ret (Expectation.bytes (min hint left))
body_expectation (progressive_eof hint) = ret (Expectation.bytes hint)
body_expectation (progressive_chunked hint off left) =
    if left == 0 then ret (Expectation.delimiter off crlf (off + max_chunk_head)) else (do
      total ← add_u64 off left
      wanted ← add_u64 (min hint total) 2
      ret (Expectation.bytes wanted))

module _ (e : Env) where
  open e use {Buf, Cli, Req, Seed, Scope, Time, now, add_time}

  abbrev pub State : Type 0
  State = ParserImpl Req Time

  -- What an event gives back.
  abbrev pub Reply : Type 0
  Reply = Intent Cli Req Time × Transport Buf × Scope

  -- `scope.now() + machine.byte_timeout(scope)`
  abbrev pub byte_deadline : Req → Scope → Time × Scope
  byte_deadline machine scope =
      let (wait, scope') = e.byte_timeout machine scope in (add_time (now scope) wait, scope')

  unfoldable pub intent : State → Cli → Scope → Outcome (Intent Cli Req Time × Scope)
  intent (connecting dline) cli scope =
      ret (of cli (connecting dline) (Expectation.flush 0) dline, scope)
  intent (flushing dline) cli scope =
      ret (of cli (flushing dline) (Expectation.flush 0) dline, scope)
  intent (idle dline) cli scope = ret (of cli (idle dline) Expectation.sleep dline, scope)
  intent (read_headers rh) cli scope =
      let (dline, scope') = byte_deadline rh.machine scope in
      ret
        (of cli (read_headers rh) (Expectation.delimiter 0 head_end max_headers_size) dline, scope')
  intent (response r) cli scope = do
    exp ← body_expectation r.progress
    let (dline, scope') = byte_deadline r.machine scope
    ret (of cli (response r) exp (e.min_time r.deadline dline), scope')

  -- The end of a response: the connection is used again only if the request has been sent whole.
  unfoldable pub finish : Cli → Request Buf → Scope → Outcome (Intent Cli Req Time × Scope)
  unfolding intent
  finish cli req scope =
      if is_complete req.message.1
      then (let (wait, scope') = e.idle_timeout cli scope in
          intent (flushing (add_time (now scope) wait)) cli scope')
      else ret (done, scope)
