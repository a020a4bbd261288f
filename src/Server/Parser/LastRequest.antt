-- ===== src/Server/Parser/LastRequest.antt =====
-- server/parser.rs: the requests after which a connection closes, from their heads on.
use rotor_http.Prelude.{
  ℕ, ◌≡◌, refl, ◌∙◌, Bool, true, not, ◌||◌, ◌&&◌, ◌==◌, if◌then◌else◌, Bool-cases, inl, inr, Bytes,
  Option, none, some, Outcome, ret, panic, Always, Always->>=, Always-ret, ◌>>=◌, unwrap, Result,
  ok, err,
}
use rotor_http.Message.{Message, is_started, response_continue}
use rotor_http.RecvMode.{RecvMode}
use rotor_http.Server.Body.{BodyKind}
use rotor_http.Server.Error.{RequestError}
use rotor_http.Server.Parser.Closing.{ClosingReply, ClosingReply-intent_body}
use rotor_http.Server.Parser.Head.{
  Reply, fail_with, fail_early, accept, answered, scanned_head, parsed_head, read_head,
}
use rotor_http.Server.Parser.{start_body, intent_flush}
use rotor_http.Server.Protocol.{Env, Transport, Parsed}
use rotor_http.Server.Scan.Framing.{
  asks_close, any_chunked, lengths, is_empty, scan_raw_request-framing,
}
use rotor_http.Server.Scan.{RawRequest, scan_raw_request}

-- HTTP/1.0, a Connection header with the option `close`, or a Content-Length beside a chunked
-- coding.
abbrev pub is_last : ℕ → RawRequest → Bool
is_last version raw =
    version == 0
    || (asks_close raw.headers || (any_chunked raw.headers && not (is_empty (lengths raw.headers))))

module _ (e : Env) where
  open e use {Buf, Machine, Seed, Scope, Time, Addr, ParseError, ops}

  ClosingReply-fail_with :
      (x : RequestError ParseError) (resp : Message Buf) (seed : Seed) (t : Transport Buf Addr)
      (scope : Scope)
      → Always (ClosingReply e) (fail_with e x resp seed t scope)
  unfolding fail_with intent_flush
  ClosingReply-fail_with x resp seed t scope =
      Always->>= (e.emit_error_page x resp seed scope) _ (λ r. Always.returns tt)

  ClosingReply-accept :
      (n : ℕ) (body : BodyKind) (expect : Bool) (m : Machine) (mode : RecvMode) (deadline : Time)
      (resp : Message Buf) (seed : Seed) (t : Transport Buf Addr) (scope : Scope)
      → Always (ClosingReply e) (accept e n body expect true m mode deadline resp seed t scope)
  unfolding accept
  ClosingReply-accept n body expect m mode deadline resp seed t scope =
      Always->>= (if expect then response_continue ops resp else ret resp) _ (λ (buf, state).
        Always->>= (start_body mode body) _ (λ p. ClosingReply-intent_body e _ seed _ scope refl))

  ClosingReply-answered :
      (n : ℕ) (body : BodyKind) (expect : Bool) (seed : Seed) (t : Transport Buf Addr)
      (reply : Option (Machine × RecvMode × Time) × Message Buf × Scope)
      → Always (ClosingReply e) (answered e n body expect true seed t reply)
  unfolding answered intent_flush
  ClosingReply-answered n body expect seed t (some (m, mode, deadline), resp, scope) =
      ClosingReply-accept n body expect m mode deadline resp seed t scope
  ClosingReply-answered n body expect seed t (none, resp, scope) =
      elim (Bool-cases (is_started resp.1)) [
        | inr n ↦ rw n (ClosingReply-fail_with _ resp seed t scope)
        | inl y ↦ rw y (elim (Bool-cases expect) [
          | inl wants ↦ rw wants (Always.returns tt)
          | inr simple ↦ rw simple (Always.returns tt)
        ])
      ]

  ClosingReply-scanned_head :
      (n : ℕ) (raw : RawRequest) (seed : Seed) (t : Transport Buf Addr) (scope : Scope)
      (r : Result (BodyKind × Bool × Bool × Bool) (RequestError ParseError))
      → ((b : BodyKind) (is_head expect close : Bool)
          → r ≡ ok (b, is_head, expect, close)
          → close ≡ true)
      → Always (ClosingReply e) (scanned_head e n raw seed t scope r)
  unfolding scanned_head fail_early
  ClosingReply-scanned_head n raw seed t scope (err x) h = ClosingReply-fail_with x _ seed t scope
  ClosingReply-scanned_head n raw seed t scope (ok (b, is_head, expect, close)) h =
      Always->>= (unwrap raw.version) _ (λ version. Always->>= (unwrap raw.method) _ (λ method.
        Always->>= (unwrap raw.path) _ (λ path.
          Always->>= (e.headers_received seed _ _ scope) _ (λ reply.
            rw (h b is_head expect close refl) (ClosingReply-answered n b expect seed t reply)))))

  -- The last request of a connection is known by its head: if httparse has read a head with a method
  -- and a version, and the request is HTTP/1.0, has a Connection header with the option `close`, or a
  -- Content-Length beside a chunked coding, then, where `bytes_read` does not panic, the connection
  -- closes at once, or when its output is flushed, or it is in a state that closes behind the request,
  -- whether the head is accepted or not and whatever the handler does.
  pub read_head-ClosingReply :
      (n : ℕ) (raw : RawRequest) (method : Bytes) (version : ℕ) (seed : Seed)
      (t : Transport Buf Addr) (scope : Scope) (reply : Reply e)
      → e.parse_request (ops.contents t.input) ≡ Parsed.complete n raw
      → raw.method ≡ some method
      → raw.version ≡ some version
      → is_last version raw ≡ true
      → read_head e seed t scope ≡ ret reply
      → ClosingReply e reply
  unfolding read_head parsed_head
  read_head-ClosingReply n raw method version seed t scope reply parsed hm hv last step =
      Always-ret (always (scan_raw_request raw) refl) (rw parsed at step)
    where
      always :
          (o : Outcome (Result (BodyKind × Bool × Bool × Bool) (RequestError ParseError)))
          → scan_raw_request raw ≡ o
          → Always (ClosingReply e) (do r ← o; scanned_head e n raw seed t scope r)
      always panic same = Always.panics
      always (ret r) same =
          ClosingReply-scanned_head n raw seed t scope r (λ b is_head expect close is_ok.
            let (chunks, expects, closes, head) =
              scan_raw_request-framing raw method version b is_head expect close hm hv
                (rw is_ok at same) in
            closes ∙ last)
