-- ===== src/Server/Parser/Events.antt =====
-- server/parser.rs: the events of a connection (`Protocol for Parser`).
use rotor_http.Prelude.{
  ℕ, zero, Bool, true, false, not, if◌then◌else◌, length, Option, none, some, Outcome, ret, panic,
  ◌>>=◌, ◌>>◌, assert,
}
use rotor_http.Message.{Message, is_started, is_complete}
use rotor_http.Server.Error.{
  RequestError, headers_timeout, request_timeout, handler_timeout, payload_too_large,
  premature_end_of_stream,
}
use rotor_http.Server.Parser.Head.{Reply, going, fail_with, fail_early, read_head}
use rotor_http.Server.Parser.Reading.{and_then, reject, read_body}
use rotor_http.Server.Parser.{
  BodyProgress, buffer_chunked, progressive_chunked, ReadBody, ParserImpl, idle, read_headers,
  reading_body, processing, done_response, Intent, sleep, intent_idle, intent_headers, intent_flush,
  intent_body, complete,
}
use rotor_http.Server.Protocol.{Env, Transport}

-- `rotor_stream::Exception`; the others are logged and end the connection.
pub data Exception : Type 0 where
  limit_reached end_of_stream other : Exception

-- `matches!(rb.progress, ProgressiveChunked(_, _, 0) | BufferChunked(_, _, 0))`
abbrev pub awaits_size : BodyProgress → Bool
awaits_size (buffer_chunked limit off zero) = true
awaits_size (progressive_chunked hint off zero) = true
awaits_size _ = false

module _ (e : Env) where
  open e use {Buf, Machine, Seed, Scope, Time, Addr, ParseError, ops}

  abbrev pub State : Type 0
  State = ParserImpl Machine Time

  unfoldable pub create : Seed → Scope → Intent Machine Seed Time × Scope
  create seed scope = intent_idle e seed scope

  unfoldable pub bytes_read : State → ℕ → Seed → Transport Buf Addr → Scope → Outcome (Reply e)
  bytes_read idle end seed t scope = read_head e seed t scope
  bytes_read read_headers end seed t scope = read_head e seed t scope
  bytes_read (reading_body rb) end seed t scope = read_body e rb end seed t scope
  bytes_read (processing m r c deadline) end seed t scope =
      ret (Intent.of (processing m r c deadline) seed sleep deadline, t, scope)
  bytes_read done_response end seed t scope = ret (going e (intent_flush e seed scope) t)

  unfoldable pub bytes_flushed : State → Outcome (Intent Machine Seed Time)
  bytes_flushed done_response = ret Intent.done
  bytes_flushed _ = panic

  -- The handler gave up in its `timeout`.
  unfoldable pub give_up :
      RequestError ParseError → Message Buf → Seed → Transport Buf Addr → Scope → Outcome (Reply e)
  give_up x resp seed t scope =
      if not (is_started resp.1)
      then fail_with e x resp seed t scope
      else ret (Intent.done, record t { output = resp.0 }, scope)

  -- `rb.machine.and_then(|m| m.timeout(…))`
  unfoldable pub time_out :
      Option Machine → Message Buf → Scope → Outcome (Option (Machine × Time) × Message Buf × Scope)
  time_out none resp scope = ret (none, resp, scope)
  time_out (some m) resp scope = e.timeout m resp scope

  unfoldable pub body_timeout :
      ReadBody Machine Time
      → Seed
      → Transport Buf Addr
      → Option (Machine × Time) × Message Buf × Scope
      → Outcome (Reply e)
  body_timeout rb seed t (some (m, deadline), resp, scope) = do
    intent ←
        intent_body e seed (record rb { machine = some m; deadline = deadline; response = resp.1 })
    ret (intent, record t { output = resp.0 }, scope)
  body_timeout rb seed t (none, resp, scope) = give_up request_timeout resp seed t scope

  unfoldable pub handler_timed_out :
      Bool
      → Seed
      → Transport Buf Addr
      → Option (Machine × Time) × Message Buf × Scope
      → Outcome (Reply e)
  handler_timed_out close seed t (some (m, deadline), resp, scope) = do
    reply ← complete e seed scope (some m) resp.1 close deadline
    ret (going e reply (record t { output = resp.0 }))
  handler_timed_out close seed t (none, resp, scope) = give_up handler_timeout resp seed t scope

  unfoldable pub timeout : State → Seed → Transport Buf Addr → Scope → Outcome (Reply e)
  timeout idle seed t scope = ret (Intent.done, t, scope)
  timeout done_response seed t scope = ret (Intent.done, t, scope)
  timeout read_headers seed t scope = fail_early e headers_timeout seed t scope
  timeout (reading_body rb) seed t scope = do
    reply ← time_out rb.machine (t.output, rb.response) scope
    body_timeout rb seed t reply
  timeout (processing m response close deadline) seed t scope = do
    reply ← e.timeout m (t.output, response) scope
    handler_timed_out close seed t reply

  unfoldable pub wakeup : State → Seed → Transport Buf Addr → Scope → Outcome (Reply e)
  wakeup idle seed t scope = ret (going e (intent_idle e seed scope) t)
  wakeup read_headers seed t scope =
      ret (going e (intent_headers e seed scope (length (ops.contents t.input))) t)
  wakeup done_response seed t scope = ret (going e (intent_flush e seed scope) t)
  wakeup (reading_body rb) seed t scope = do
    (m, resp, scope') ← and_then e rb.machine e.wakeup (t.output, rb.response) scope
    intent ← intent_body e seed (record rb { machine = m; response = resp.1 })
    ret (intent, record t { output = resp.0 }, scope')
  wakeup (processing m response close deadline) seed t scope = do
    (m', resp, scope') ← e.wakeup m (t.output, response) scope
    reply ← complete e seed scope' m' resp.1 close deadline
    ret (going e reply (record t { output = resp.0 }))

  -- The body of both exceptions: the handler is told, an error page is sent if nothing was, and the
  -- connection closes, after a flush if the response is complete.
  unfoldable pub abort :
      RequestError ParseError
      → ReadBody Machine Time
      → Seed
      → Transport Buf Addr
      → Scope
      → Outcome (Reply e)
  abort x rb seed t scope = do
    (resp₁, scope₁) ← reject e rb.machine (t.output, rb.response) scope
    (resp₂, scope₂) ←
        (if not (is_started resp₁.1)
          then e.emit_error_page x resp₁ seed scope₁
          else ret (resp₁, scope₁))
    ret (
        if is_complete resp₂.1
        then going e (intent_flush e seed scope₂) (record t { output = resp₂.0 })
        else (Intent.done, record t { output = resp₂.0 }, scope₂))

  unfoldable pub exception :
      State → Exception → Seed → Transport Buf Addr → Scope → Outcome (Reply e)
  exception (reading_body rb) limit_reached seed t scope = do
    assert (awaits_size rb.progress)
    abort payload_too_large rb seed t scope
  exception (reading_body rb) end_of_stream seed t scope =
      abort premature_end_of_stream rb seed t scope
  exception _ _ seed t scope = ret (Intent.done, t, scope)
