-- ===== src/Client/Session.antt =====
-- client/parser.rs over the events of a connection: output that is awaited is flushed, and input is
-- told of when it holds what the connection asks for.
use rotor_http.Prelude.{
  ℕ, zero, suc, ◌+◌, ◌≡◌, refl, ◌++◌, Bool, Bytes, Option, none, some, length, Outcome, ret, ◌>>=◌,
  ok, false,
}
use rotor_http.Client.Head.{fixed}
use rotor_http.Client.Parser.Events.{bytes_read, bytes_flushed}
use rotor_http.Client.Parser.{Intent, State, Reply, head_end, max_headers_size}
use rotor_http.Client.Protocol.{Env, Transport, RawResponse, Parsed}
use rotor_http.Client.Scan.{scan_headers}
use rotor_http.Stream.{Delivery, Expectation, flush}

module _ (e : Env) (d : Delivery) where
  open e use {Buf, Cli, Scope, Time, ops}
  open ops use {contents}

  unfoldable pub heard :
      (Reply e → Outcome (Reply e))
      → Cli
      → State e
      → Expectation
      → Time
      → Transport Buf
      → Scope
      → Option ℕ
      → Outcome (Reply e)
  heard more cli st exp deadline t scope none = ret (Intent.of cli st exp deadline, t, scope)
  heard more cli st exp deadline t scope (some end) = do
    reply ← bytes_read e st end cli t scope
    more reply

  unfoldable pub waited :
      (Reply e → Outcome (Reply e))
      → Cli
      → State e
      → Expectation
      → Time
      → Transport Buf
      → Scope
      → Outcome (Reply e)
  unfolding heard
  waited more cli st (flush n) deadline t scope = do
    reply ← bytes_flushed e st cli t scope
    more reply
  waited more cli st exp deadline t scope =
      heard more cli st exp deadline t scope (d.deliver exp (contents t.input))

  -- Events as long as the connection asks for something that is there.
  unfoldable pub run : ℕ → Reply e → Outcome (Reply e)
  unfolding waited
  run zero reply = ret reply
  run (suc fuel) (Intent.done, t, scope) = ret (Intent.done, t, scope)
  run (suc fuel) (Intent.of cli st exp deadline, t, scope) =
      waited (run fuel) cli st exp deadline t scope

  -- The expectation is met by input.
  abbrev pub WantsInput : Expectation → Type 0
  WantsInput (flush n) = ⊥
  WantsInput _ = Unit

  pub run-bytes_read :
      (fuel end : ℕ) (cli : Cli) (st : State e) (exp : Expectation) (deadline : Time)
      (t : Transport Buf) (scope : Scope) (reply : Reply e)
      → WantsInput exp
      → d.deliver exp (contents t.input) ≡ some end
      → bytes_read e st end cli t scope ≡ ret reply
      → run (suc fuel) (Intent.of cli st exp deadline, t, scope) ≡ run fuel reply
  unfolding run
  run-bytes_read fuel end cli st (flush n) deadline t scope reply w h k = absurd w
  run-bytes_read fuel end cli st (Expectation.bytes n) deadline t scope reply w h k = rw (h, k) refl
  run-bytes_read fuel end cli st (Expectation.delimiter off s limit) deadline t scope reply w h k =
      rw (h, k) refl
  run-bytes_read fuel end cli st Expectation.sleep deadline t scope reply w h k = rw (h, k) refl

-- A response to a request that is not HEAD, as it stands in the input, with what httparse makes of
-- its head.
pub record Incoming : Type 0 where
  pub text : Bytes
  pub raw : RawResponse
  pub version : ℕ
  pub code : ℕ
  pub reason : Bytes
  pub body : Bytes
  pub closes : Bool

-- The transport finds the end of the head, whatever follows it, httparse reads it, and its headers
-- declare the body's length.
pub record Readable (e : Env) (d : Delivery) (r : Incoming) : Type 0 where
  pub end : ℕ
  pub size : length r.text ≡ end + 4
  pub ends :
      (rest : Bytes)
      → d.deliver (Expectation.delimiter 0 head_end max_headers_size) (r.text ++ rest) ≡ some end
  pub reads : e.parse_response r.text ≡ Parsed.complete (end + 4) r.raw
  pub has_version : r.raw.version ≡ some r.version
  pub has_code : r.raw.code ≡ some r.code
  pub has_reason : r.raw.reason ≡ some r.reason
  pub scans : scan_headers false r.code r.raw.headers ≡ ok (fixed (length r.body), r.closes)
