-- ===== src/Server/Session.antt =====
-- server/parser.rs over the requests of a connection: the events that the transport makes out of the
-- bytes that have arrived, one `bytes_read` after the other.
pub mod Rounds
use rotor_http.Prelude.{
  ℕ, zero, suc, ◌+◌, ◌*◌, ◌≤◌, ◌<◌, ◌≡◌, refl, ◌∙◌, Bool, true, false, if◌then◌else◌, ◌==◌, List,
  [], ◌∷◌, ◌++◌, append_assoc, append-nil, All, arith, Bytes, codes, length, length-append,
  drop_prefix, Option, none, some, Outcome, ret, panic, ◌>>=◌, ◌>>◌, unwrap, assert, ok, err,
  Result, slice_middle,
}
use rotor_http.Buffer.{BufferLaws}
use rotor_http.Message.{Message, is_complete}
use rotor_http.Message.State.{MessageState}
use rotor_http.RecvMode.{buffered}
use rotor_http.Server.Body.{fixed}
use rotor_http.Server.Parser.Events.{State, bytes_read}
use rotor_http.Server.Parser.Head.{
  Reply, going, read_head, parsed_head, scanned_head, answered, accept,
}
use rotor_http.Server.Parser.Reading.{
  round, read_buffer_fixed, receive, and_then, after_round, read_body,
}
use rotor_http.Server.Parser.{
  idle, reading_body, buffer_fixed, Intent, start_body, body_expectation, intent_idle, intent_body,
  complete,
}
use rotor_http.Server.Protocol.{Env, Transport, Parsed, Head}
use rotor_http.Server.Response.{new}
use rotor_http.Server.Scan.{RawRequest, scan_raw_request}
use rotor_http.Stream.{Delivery, Expectation, bytes}
use rotor_http.Version.{http11}

module _ (e : Env) (d : Delivery) where
  open e use {Buf, Machine, Seed, Scope, Time, Addr, ops}
  open ops use {contents}

  unfoldable pub waited :
      (Reply e → Outcome (Reply e))
      → State e
      → Seed
      → Expectation
      → Time
      → Transport Buf Addr
      → Scope
      → Option ℕ
      → Outcome (Reply e)
  waited more st seed exp deadline t scope none = ret (Intent.of st seed exp deadline, t, scope)
  waited more st seed exp deadline t scope (some end) = do
    reply ← bytes_read e st end seed t scope
    more reply

  -- Events as long as the input has what the connection asks for.
  unfoldable pub serve : ℕ → Reply e → Outcome (Reply e)
  unfolding waited
  serve zero reply = ret reply
  serve (suc fuel) (Intent.done, t, scope) = ret (Intent.done, t, scope)
  serve (suc fuel) (Intent.of st seed exp deadline, t, scope) =
      waited (serve fuel) st seed exp deadline t scope (d.deliver exp (contents t.input))

-- A request with no body, as it stands in the input, with what httparse makes of it.
pub record Incoming : Type 0 where
  pub text : Bytes
  pub raw : RawRequest
  pub method : Bytes
  pub path : Bytes
  pub is_head : Bool

-- httparse reads the head, whatever follows it; it is HTTP/1.1, has no body, expects no 100 Continue
-- and does not close the connection.
pub record Readable (e : Env) (r : Incoming) : Type 0 where
  pub not_empty : 0 < length r.text
  pub reads :
      (rest : Bytes) → e.parse_request (r.text ++ rest) ≡ Parsed.complete (length r.text) r.raw
  pub has_version : r.raw.version ≡ some 1
  pub has_method : r.raw.method ≡ some r.method
  pub has_path : r.raw.path ≡ some r.path
  pub scans :
      scan_raw_request {E = e.ParseError} r.raw ≡ ret (ok (fixed 0, r.is_head, false, false))

module _ (e : Env) where
  open e use {Buf, Machine, Seed, Scope, Time, Addr, ops}
  open ops use {contents}

  -- What the handler is given for a request.
  abbrev pub head_of : Incoming → Option Addr → Head Addr
  head_of r peer = record {
    client = peer;
    version = http11;
    method = r.method;
    scheme = codes "http";
    path = r.path;
    headers = r.raw.headers;
    body_kind = fixed 0;
  }

  abbrev pub started : Incoming → Buf → Message Buf
  started r b = new b http11 r.is_head false

  -- The handler takes a request in `scope`, to be buffered, and answers it with `text`, which leaves
  -- the scope `after`.
  pub record Answers (r : Incoming) (peer : Option Addr) (seed : Seed) (scope : Scope)
      (text : Bytes) (after : Scope) : Type 0 where
    pub machine : Machine
    pub limit : ℕ
    pub deadline : Time
    pub between : Scope
    pub takes :
        (b : Buf)
        → e.headers_received seed (head_of r peer) (started r b) scope
          ≡ ret (some (machine, buffered limit, deadline), started r b, between)
    pub answers :
        (b : Buf)
        → (b' : Buf) × (e.request_received machine [] (started r b) between
            ≡ ret (none, (b', MessageState.done), after))
          × (contents b' ≡ contents b ++ text)

  -- Requests, one after the other, with the texts of their answers; each is followed by the wait for
  -- the next one, which reads a timeout.
  pub data Serves (peer : Option Addr) (seed : Seed)
      : List Incoming → Scope → Bytes → Scope → Type 0 where
    no_more : {scope : Scope} → Serves peer seed [] scope [] scope
    then_more :
        {r : Incoming} {rs : List Incoming} {scope after last : Scope} {text out : Bytes}
        → Readable e r
        → Answers r peer seed scope text after
        → Serves peer seed rs (e.idle_timeout seed after).1 out last
        → Serves peer seed (r ∷ rs) scope (text ++ out) last

abbrev pub texts : List Incoming → Bytes
texts [] = []
texts (r ∷ rs) = r.text ++ texts rs

-- Two events for a request: its head, and its empty body.
abbrev pub events : List Incoming → ℕ
events [] = 0
events (r ∷ rs) = suc (suc (events rs))
