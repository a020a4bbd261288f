-- ===== src/Client/Parser/Head.antt =====
-- client/parser.rs: the head of a request (`maybe_new_request`) and that of a response
-- (`parse_headers`).
use rotor_http.Prelude.{
  ℕ, ◌+◌, Bytes, Bool, ◌||◌, ◌==◌, if◌then◌else◌, Option, none, some, Outcome, ret, panic, ◌>>=◌,
  ◌>>◌, assert, unwrap, slice, Result, ok, err,
}
use rotor_http.Client.Head.{BodyKind}
use rotor_http.Client.Head
use rotor_http.Client.Parser.{
  idle, read_headers, response, Intent, State, Reply, intent, byte_deadline, start_body, head_end,
  max_headers_size,
}
use rotor_http.Client.Protocol.{
  Env, Transport, Task, sleep, request, close, Parsed, complete, partial, failed, RawResponse,
}
use rotor_http.Client.Request.{Request, new, state}
use rotor_http.Client.Scan.{scan_headers}
use rotor_http.RecvMode.{RecvMode}
use rotor_http.Stream.{Expectation}
use rotor_http.Version.{http10, http11}

-- `Head`, from what was parsed and scanned.
abbrev pub head_of : ℕ → ℕ → RawResponse → Bytes → BodyKind × Bool → Head.Head
head_of ver code raw reason (body, closes) = record {
  version = if ver == 1 then http11 else http10;
  code = code;
  reason = reason;
  headers = raw.headers;
  body_kind = body;
  close = closes || ver == 0;
}

module _ (e : Env) where
  open e use {Buf, Cli, Req, Scope, Time, ops}

  -- The match on what `prepare_request` gives back; `None` is `unimplemented!()`.
  unfoldable pub prepared :
      Cli → Transport Buf → Option Req × Request Buf × Scope → Outcome (Reply e)
  prepared cli t (some m, req, scope) =
      let (deadline, scope') = byte_deadline e m scope in
      ret (
        Intent.of cli
            (read_headers (record { machine = m; request = state req; is_head = req.is_head }))
            (Expectation.delimiter 0 head_end max_headers_size) deadline,
        record t { output = req.message.0 },
        scope',
      )
  prepared cli t (none, req, scope) = panic

  unfoldable pub maybe_new_request : Transport Buf → Task Cli Req Time → Scope → Outcome (Reply e)
  unfolding prepared
  maybe_new_request t close scope = ret (Intent.done, t, scope)
  maybe_new_request t (sleep cli deadline) scope = do
    (i, scope') ← intent e (idle deadline) cli scope
    ret (i, t, scope')
  maybe_new_request t (request cli m) scope = do
    r ← e.prepare_request m (new t.output) scope
    prepared cli t r

  abbrev pub Parsing : Type 0
  Parsing = Result (State e) (Unit {0}) × Buf × Request Buf × Scope

  -- What follows `headers_received`: the headers leave the buffer once a handler takes the response.
  unfoldable pub received :
      ℕ → BodyKind → Buf → Option (Req × RecvMode × Time) × Request Buf × Scope → Outcome Parsing
  received end body buffer (none, req, scope) = ret (err tt, buffer, req, scope)
  received end body buffer (some (m, mode, deadline), req, scope) = ret (
    ok (
        response (record {
          progress = start_body mode body;
          machine = m;
          deadline = deadline;
          request = state req;
        })),
    ops.consume buffer (end + 4),
    req,
    scope,
  )

  -- The match on `scan_headers`.
  unfoldable pub scanned_head :
      ℕ
      → ℕ
      → ℕ
      → RawResponse
      → Bytes
      → Buf
      → Req
      → Request Buf
      → Scope
      → Result (BodyKind × Bool) (Unit {0})
      → Outcome Parsing
  unfolding received
  scanned_head end ver code raw reason buffer proto req scope (err x) =
      ret (err tt, buffer, req, scope)
  scanned_head end ver code raw reason buffer proto req scope (ok framing) = do
    r ← e.headers_received proto (head_of ver code raw reason framing) req scope
    received end framing.0 buffer r

  -- The match on `raw.parse`.
  unfoldable pub parsed_head : ℕ → Buf → Req → Request Buf → Bool → Scope → Parsed → Outcome Parsing
  unfolding scanned_head
  parsed_head end buffer proto req is_head scope (complete x raw) = do
    assert (x == end + 4)
    ver ← unwrap raw.version
    code ← unwrap raw.code
    reason ← unwrap raw.reason
    scanned_head end ver code raw reason buffer proto req scope
        (scan_headers is_head code raw.headers)
  parsed_head end buffer proto req is_head scope partial = panic
  parsed_head end buffer proto req is_head scope failed = ret (err tt, buffer, req, scope)

  unfoldable pub parse_headers : Buf → ℕ → Req → Request Buf → Bool → Scope → Outcome Parsing
  unfolding parsed_head
  parse_headers buffer end proto req is_head scope = do
    text ← slice 0 (end + 4) (ops.contents buffer)
    parsed_head end buffer proto req is_head scope (e.parse_response text)
