-- ===== src/Server/Parser/Refusals.antt =====
-- A request that fails before it reaches a handler is answered, where the handler leaves the error
-- page to the default.
use rotor_http.Prelude.{
  ℕ, ◌<◌, ◌≡◌, refl, true, false, ◌++◌, Bytes, length, lt→ltb, Outcome, ret, ◌>>=◌, err,
}
use rotor_http.Buffer.{BufferLaws}
use rotor_http.Message.{Message}
use rotor_http.Server.Error.{
  RequestError, headers_are_too_large, bad_headers, headers_timeout, http_status,
}
use rotor_http.Server.Parser.Events.{State, bytes_read, timeout}
use rotor_http.Server.Parser.Phase.{Event, react}
use rotor_http.Server.Parser.Head.{
  Reply, going, fail_with, fail_early, scanned_head, parsed_head, read_head,
}
use rotor_http.Server.Parser.{idle, read_headers, intent_flush, max_headers_size}
use rotor_http.Server.Protocol.{Env, Transport, Parsed}
use rotor_http.Server.Response.ErrorPage.{response_of, emit_error_page_complete}
use rotor_http.Server.Response.{new, emit_error_page}
use rotor_http.Server.Scan.{RawRequest, scan_raw_request}
use rotor_http.Version.{http10}

-- The handler does not override the error page.
abbrev pub DefaultPage : Env → Type 0
DefaultPage e =
    (x : RequestError e.ParseError) (m : Message e.Buf) (seed : e.Seed) (scope : e.Scope)
    → e.emit_error_page x m seed scope
      ≡ (do m' ← emit_error_page e.ops (http_status x) m; ret (m', scope))

-- The reply: the connection is flushed and closed, and the output has grown by the error page of
-- this error, in an HTTP/1.0 response that closes the connection.
pub record Answered (e : Env) (x : RequestError e.ParseError) (seed : e.Seed)
    (t : Transport e.Buf e.Addr) (scope : e.Scope) (o : Outcome (Reply e)) : Type 0 where
  pub out : e.Buf
  pub reply : o ≡ ret (going e (intent_flush e seed scope) (record t { output = out }))
  pub page :
      e.ops.contents out
      ≡ e.ops.contents t.output ++ response_of http10 false true (http_status x).0 (http_status x).1

-- Why a head is refused, by the input.
pub data BadHead (e : Env) (input : Bytes) : RequestError e.ParseError → Type 0 where
  unparsed :
      {x : e.ParseError} → e.parse_request input ≡ Parsed.failed x → BadHead e input (bad_headers x)
  too_large :
      e.parse_request input ≡ Parsed.partial
      → max_headers_size < length input
      → BadHead e input headers_are_too_large
  unscanned :
      {n : ℕ} {raw : RawRequest} {x : RequestError e.ParseError}
      → e.parse_request input ≡ Parsed.complete n raw
      → scan_raw_request raw ≡ ret (err x)
      → BadHead e input x

-- Why a request fails before it reaches a handler: its head is late, or it is refused when it
-- arrives, at once or piece by piece.
pub data BadRequest (e : Env) (input : Bytes)
    : Event → State e → RequestError e.ParseError → Type 0 where
  late : BadRequest e input Event.timed_out read_headers headers_timeout
  at_once :
      {end : ℕ} {x : RequestError e.ParseError}
      → BadHead e input x
      → BadRequest e input (Event.arrived end) idle x
  in_pieces :
      {end : ℕ} {x : RequestError e.ParseError}
      → BadHead e input x
      → BadRequest e input (Event.arrived end) read_headers x

module _ (e : Env) (laws : BufferLaws e.ops) (plain : DefaultPage e) where
  open e use {Buf, Seed, Scope, Addr, ParseError, ops}

  fail_early-Answered :
      (x : RequestError ParseError) (seed : Seed) (t : Transport Buf Addr) (scope : Scope)
      → Answered e x seed t scope (fail_early e x seed t scope)
  unfolding fail_early fail_with new
  fail_early-Answered x seed t scope =
      let (out, sent, page) =
        emit_error_page_complete ops laws x http10 false false true t.output in
      record { out = out; reply = rw (plain, sent) refl; page = page }

  timeout-Answered :
      (seed : Seed) (t : Transport Buf Addr) (scope : Scope)
      → Answered e headers_timeout seed t scope (timeout e read_headers seed t scope)
  unfolding timeout
  timeout-Answered seed t scope = fail_early-Answered headers_timeout seed t scope

  read_head-Answered :
      (seed : Seed) (t : Transport Buf Addr) (scope : Scope) (x : RequestError ParseError)
      → BadHead e (ops.contents t.input) x
      → Answered e x seed t scope (read_head e seed t scope)
  unfolding read_head parsed_head scanned_head
  read_head-Answered seed t scope x (BadHead.unparsed p) = rw p (fail_early-Answered x seed t scope)
  read_head-Answered seed t scope x (BadHead.too_large p large) =
      rw (p, lt→ltb max_headers_size (length (ops.contents t.input)) large)
        (fail_early-Answered x seed t scope)
  read_head-Answered seed t scope x (BadHead.unscanned p refused) =
      rw (p, refused) (fail_early-Answered x seed t scope)

  -- A request that fails before it reaches a handler is answered with the page of its error, and
  -- the connection closes behind it: where its head is not complete in time (408), is refused by
  -- the header parser, is not complete in more than 16384 bytes, or is refused by the scan of its
  -- headers.
  pub react-Answered :
      (event : Event) (st : State e) (seed : Seed) (t : Transport Buf Addr) (scope : Scope)
      (x : RequestError ParseError)
      → BadRequest e (ops.contents t.input) event st x
      → Answered e x seed t scope (react e event st seed t scope)
  unfolding bytes_read
  react-Answered event st seed t scope x BadRequest.late = timeout-Answered seed t scope
  react-Answered event st seed t scope x (BadRequest.at_once bad) =
      read_head-Answered seed t scope x bad
  react-Answered event st seed t scope x (BadRequest.in_pieces bad) =
      read_head-Answered seed t scope x bad
