-- ===== src/Server/Parser/Head.antt =====
-- server/parser.rs, `bytes_read` in the states `Idle` and `ReadHeaders`: the head of a request.
use rotor_http.Prelude.{
  ℕ, Bool, true, false, not, ◌==◌, if◌then◌else◌, ltb, length, codes, Option, none, some, Outcome,
  ret, ◌>>=◌, unwrap, Result, ok, err,
}
use rotor_http.Version.{http10, http11}
use rotor_http.Message.{Message, is_started, response_continue}
use rotor_http.RecvMode.{RecvMode}
use rotor_http.Server.Body.{BodyKind}
use rotor_http.Server.Error.{RequestError, headers_are_too_large, bad_headers, headers_received}
use rotor_http.Server.Parser.{
  Intent, Going, start_body, intent_headers, intent_flush, intent_body, max_headers_size,
}
use rotor_http.Server.Protocol.{Env, Transport, Parsed}
use rotor_http.Server.Response.{new}
use rotor_http.Server.Scan.{RawRequest, scan_raw_request}

module _ (e : Env) where
  open e use {Buf, Machine, Seed, Scope, Time, Addr, ParseError, ops}

  -- What a handler of the connection gives back.
  abbrev pub Reply : Type 0
  Reply = Intent Machine Seed Time × Transport Buf Addr × Scope

  abbrev pub going : Going e → Transport Buf Addr → Reply
  going (i, scope) t = (i, t, scope)

  -- An error page on the response, and `intent_flush`.
  unfoldable pub fail_with :
      RequestError ParseError → Message Buf → Seed → Transport Buf Addr → Scope → Outcome Reply
  fail_with x response seed t scope = do
    ((buf, _state), scope') ← e.emit_error_page x response seed scope
    ret (going (intent_flush e seed scope') (record t { output = buf }))

  -- The same on a new response, before a request is known.
  unfoldable pub fail_early :
      RequestError ParseError → Seed → Transport Buf Addr → Scope → Outcome Reply
  fail_early x seed t scope = fail_with x (new t.output http10 false true) seed t scope

  -- The handler takes the request: 100 Continue if it is expected, then the body.
  unfoldable pub accept :
      ℕ
      → BodyKind
      → Bool
      → Bool
      → Machine
      → RecvMode
      → Time
      → Message Buf
      → Seed
      → Transport Buf Addr
      → Scope
      → Outcome Reply
  accept n body expect_continue close machine mode deadline response seed t scope = do
    (buf, state) ← (if expect_continue then response_continue ops response else ret response)
    progress ← start_body mode body
    intent ← intent_body e seed (record {
      machine = some machine;
      deadline = deadline;
      response = state;
      progress = progress;
      connection_close = close;
    })
    ret (intent, record t { input = ops.consume t.input n; output = buf }, scope)

  -- What follows `headers_received`.
  unfoldable pub answered :
      ℕ
      → BodyKind
      → Bool
      → Bool
      → Seed
      → Transport Buf Addr
      → Option (Machine × RecvMode × Time) × Message Buf × Scope
      → Outcome Reply
  answered n body expect_continue close seed t (some (machine, mode, deadline), response, scope) =
      accept n body expect_continue close machine mode deadline response seed t scope
  answered n body expect_continue close seed t (none, response, scope) =
      if is_started response.1
      then (if not expect_continue
          then ret (Intent.done, record t { output = response.0 }, scope)
          else ret (going (intent_flush e seed scope) (record t { output = response.0 })))
      else fail_with headers_received response seed t scope

  -- A complete head: scan it and hand it to the handler.
  unfoldable pub scanned_head :
      ℕ
      → RawRequest
      → Seed
      → Transport Buf Addr
      → Scope
      → Result (BodyKind × Bool × Bool × Bool) (RequestError ParseError)
      → Outcome Reply
  scanned_head n raw seed t scope (err x) = fail_early x seed t scope
  scanned_head n raw seed t scope (ok (body, is_head, expect_continue, close)) = do
    raw_version ← unwrap raw.version
    method ← unwrap raw.method
    path ← unwrap raw.path
    let version = if raw_version == 1 then http11 else http10
    reply ←
        e.headers_received seed
          (record {
            client = t.peer;
            version = version;
            method = method;
            scheme = codes "http";
            path = path;
            headers = raw.headers;
            body_kind = body;
          })
          (new t.output version is_head close) scope
    answered n body expect_continue close seed t reply

  unfoldable pub parsed_head : Parsed ParseError → Seed → Transport Buf Addr → Scope → Outcome Reply
  parsed_head (Parsed.complete n raw) seed t scope = do
    r ← scan_raw_request raw
    scanned_head n raw seed t scope r
  parsed_head Parsed.partial seed t scope =
      let size = length (ops.contents t.input) in
      if ltb max_headers_size size
      then fail_early headers_are_too_large seed t scope
      else ret (going (intent_headers e seed scope size) t)
  parsed_head (Parsed.failed x) seed t scope = fail_early (bad_headers x) seed t scope

  unfoldable pub read_head : Seed → Transport Buf Addr → Scope → Outcome Reply
  read_head seed t scope = parsed_head (e.parse_request (ops.contents t.input)) seed t scope
