-- ===== src/Server/Parser/Outcomes.antt =====
-- server/parser.rs: what a head, a body and a handler lead to.
use rotor_http.Prelude.{
  ℕ, Bool, ltb, length, if◌then◌else◌, Bool-cases, inl, inr, Option, none, some, Outcome, ret,
  panic, ◌>>=◌, Always, Always->>=, unwrap, Result, ok, err,
}
use rotor_http.Message.{Message, is_started, is_complete, response_continue}
use rotor_http.Message.State.{MessageState}
use rotor_http.RecvMode.{RecvMode}
use rotor_http.Server.Body.{BodyKind}
use rotor_http.Server.Error.{RequestError}
use rotor_http.Server.Parser.Head.{
  Reply, going, fail_with, fail_early, accept, answered, scanned_head, parsed_head, read_head,
}
use rotor_http.Server.Parser.Limits.{Ends}
use rotor_http.Server.Parser.Phase.{Phase, Stops, Completes, Heads, phase_after}
use rotor_http.Server.Parser.{
  ReadBody, idle, read_headers, reading_body, processing, done_response, Intent, Expectation,
  start_body, max_headers_size, body_expectation, intent_idle, intent_headers, intent_flush,
  intent_body, complete,
}
use rotor_http.Server.Protocol.{Env, Transport, Parsed}
use rotor_http.Server.Scan.{RawRequest, scan_raw_request}

module _ (e : Env) where
  open e use {Buf, Machine, Seed, Scope, Time, Addr, ParseError, ops}

  abbrev pub Leads : (Phase → Type 0) → Reply e → Type 0
  Leads P (i, t, scope) = P (phase_after e i)

  pub Stops-Ends : (r : Reply e) → Ends e r → Leads Stops r
  Stops-Ends (Intent.done, t, scope) h = Stops.at_once
  Stops-Ends (Intent.of done_response seed exp deadline, t, scope) h = Stops.behind_output
  Stops-Ends (Intent.of idle seed exp deadline, t, scope) h = absurd h
  Stops-Ends (Intent.of read_headers seed exp deadline, t, scope) h = absurd h
  Stops-Ends (Intent.of (processing m r c d) seed exp deadline, t, scope) h = absurd h
  Stops-Ends (Intent.of (reading_body rb) seed exp deadline, t, scope) h = absurd h

  -- The intent for a body stays with it.
  pub Leads-intent_body :
      (P : Phase → Type 0) (rb : ReadBody Machine Time) (seed : Seed) (t : Transport Buf Addr)
      (scope : Scope)
      → P Phase.reads
      → Always (Leads P) (do intent ← intent_body e seed rb; ret (intent, t, scope))
  unfolding intent_body
  Leads-intent_body P rb seed t scope h = of_expectation (body_expectation rb.progress)
    where
      of_expectation :
          (o : Outcome Expectation)
          → Always (Leads P) (do
            intent ← (do exp ← o; ret (Intent.of (reading_body rb) seed exp rb.deadline))
            ret (intent, t, scope))
      of_expectation (ret x) = Always.returns h
      of_expectation panic = Always.panics

  pub Completes-complete :
      (seed : Seed) (scope : Scope) (m : Option Machine) (state : MessageState) (close : Bool)
      (deadline : Time) (t : Transport Buf Addr)
      → Always
          (Leads Completes)
          (do reply ← complete e seed scope m state close deadline; ret (going e reply t))
  unfolding complete intent_flush intent_idle
  Completes-complete seed scope (some m) state close deadline t = Always.returns Completes.to_work
  Completes-complete seed scope none state close deadline t =
      elim (Bool-cases (is_complete state)) [
        | inr part ↦ rw part Always.panics
        | inl whole ↦ elim (Bool-cases close) [
          | inl y ↦ rw (whole, y) (Always.returns Completes.to_flush)
          | inr n ↦ rw (whole, n) (Always.returns Completes.to_rest)
        ]
      ]

  Heads-fail_with :
      (x : RequestError ParseError) (resp : Message Buf) (seed : Seed) (t : Transport Buf Addr)
      (scope : Scope)
      → Always (Leads Heads) (fail_with e x resp seed t scope)
  unfolding fail_with intent_flush
  Heads-fail_with x resp seed t scope =
      Always->>= (e.emit_error_page x resp seed scope) _
        (λ r. Always.returns (Heads.to_stop Stops.behind_output))

  Heads-answered :
      (n : ℕ) (body : BodyKind) (expect close : Bool) (seed : Seed) (t : Transport Buf Addr)
      (reply : Option (Machine × RecvMode × Time) × Message Buf × Scope)
      → Always (Leads Heads) (answered e n body expect close seed t reply)
  unfolding answered accept intent_flush
  Heads-answered n body expect close seed t (some (m, mode, deadline), resp, scope) =
      Always->>= (if expect then response_continue ops resp else ret resp) _ (λ (buf, state).
        Always->>= (start_body mode body) _
          (λ p. Leads-intent_body Heads _ seed _ scope Heads.to_reads))
  Heads-answered n body expect close seed t (none, resp, scope) =
      elim (Bool-cases (is_started resp.1)) [
        | inr n ↦ rw n (Heads-fail_with _ resp seed t scope)
        | inl y ↦ rw y (elim (Bool-cases expect) [
          | inl wants ↦ rw wants (Always.returns (Heads.to_stop Stops.behind_output))
          | inr simple ↦ rw simple (Always.returns (Heads.to_stop Stops.at_once))
        ])
      ]

  Heads-scanned_head :
      (n : ℕ) (raw : RawRequest) (seed : Seed) (t : Transport Buf Addr) (scope : Scope)
      (r : Result (BodyKind × Bool × Bool × Bool) (RequestError ParseError))
      → Always (Leads Heads) (scanned_head e n raw seed t scope r)
  unfolding scanned_head fail_early
  Heads-scanned_head n raw seed t scope (err x) = Heads-fail_with x _ seed t scope
  Heads-scanned_head n raw seed t scope (ok (b, is_head, expect, close)) =
      Always->>= (unwrap raw.version) _ (λ version. Always->>= (unwrap raw.method) _ (λ method.
        Always->>= (unwrap raw.path) _ (λ path.
          Always->>= (e.headers_received seed _ _ scope) _
            (λ reply. Heads-answered n b expect close seed t reply))))

  Heads-parsed_head :
      (p : Parsed ParseError) (seed : Seed) (t : Transport Buf Addr) (scope : Scope)
      → Always (Leads Heads) (parsed_head e p seed t scope)
  unfolding parsed_head fail_early intent_headers
  Heads-parsed_head (Parsed.complete n raw) seed t scope =
      Always->>= (scan_raw_request raw) _ (λ r. Heads-scanned_head n raw seed t scope r)
  Heads-parsed_head (Parsed.failed x) seed t scope = Heads-fail_with _ _ seed t scope
  Heads-parsed_head Parsed.partial seed t scope =
      elim (Bool-cases (ltb max_headers_size (length (ops.contents t.input)))) [
        | inl y ↦ rw y (Heads-fail_with _ _ seed t scope)
        | inr n ↦ rw n (Always.returns Heads.to_heads)
      ]

  pub Heads-read_head :
      (seed : Seed) (t : Transport Buf Addr) (scope : Scope)
      → Always (Leads Heads) (read_head e seed t scope)
  unfolding read_head
  Heads-read_head seed t scope = Heads-parsed_head _ seed t scope
