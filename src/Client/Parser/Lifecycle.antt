-- ===== src/Client/Parser/Lifecycle.antt =====
-- client/parser.rs: every event of `Protocol for Parser` is a step from one phase to another.
use rotor_http.Prelude.{
  ◌+◌, ◌==◌, ℕ, ◌≡◌, refl, Bool, Bool-cases, inl, inr, Option, none, some, Outcome, ret, ◌>>=◌,
  Always, Always->>=, Always-bind, Always-map, Always-ret, unwrap, Result, ok, err, assert, slice,
}
use rotor_http.Client.Error.{Exception, protocol_error}
use rotor_http.Client.Parser.Events.{
  head_read, read_head, bytes_read, idle_connection, new_task, bytes_flushed, tell_requester,
  exception, timeout, wakeup,
}
use rotor_http.Client.Parser.Head.{
  head_of, prepared, maybe_new_request, Parsing, received, scanned_head, parsed_head, parse_headers,
}
use rotor_http.Client.Parser.Phase.{Event, Phase, Starts, Step, phase, phase_after, handle}
use rotor_http.Client.Parser.Reading.{
  Round, goes_on, finished, closed, round, after_round, read_body,
}
use rotor_http.Client.Parser.{
  connecting, idle, read_headers, ReadHeaders, response, Response, flushing, Intent, State, Reply,
  intent, finish, body_expectation,
}
use rotor_http.Client.Protocol.{
  Env, Transport, Task, Parsed, RawResponse, complete, partial, failed,
}
use rotor_http.Client.Request.{Request, state}
use rotor_http.Client.Request
use rotor_http.Client.Head.{BodyKind}
use rotor_http.Message.{is_complete}
use rotor_http.RecvMode.{RecvMode}

module _ (e : Env) where
  open e use {Buf, Cli, Req, Scope, Time, Io, ops}

  -- The intent goes on in a phase.
  abbrev LeadsTo : Phase → Intent Cli Req Time × Scope → Type 0
  LeadsTo p (i, scope) = phase_after e i ≡ p

  abbrev Leads : (Phase → Type 0) → Reply e → Type 0
  Leads P (i, t, scope) = P (phase_after e i)

  LeadsTo-intent :
      (st : State e) (cli : Cli) (scope : Scope)
      → Always (LeadsTo (phase e st)) (intent e st cli scope)
  unfolding intent
  LeadsTo-intent (connecting dline) cli scope = Always.returns refl
  LeadsTo-intent (flushing dline) cli scope = Always.returns refl
  LeadsTo-intent (idle dline) cli scope = Always.returns refl
  LeadsTo-intent (read_headers rh) cli scope = Always.returns refl
  LeadsTo-intent (response r) cli scope =
      Always->>= (body_expectation r.progress) _ (λ exp. Always.returns refl)

  -- The reply with the intent of a state.
  Leads-intent :
      (P : Phase → Type 0) (st : State e) (cli : Cli) (t : Transport Buf) (scope : Scope)
      → P (phase e st)
      → Always (Leads P) (do (i, scope') ← intent e st cli scope; ret (i, t, scope'))
  Leads-intent P st cli t scope h =
      Always-bind _ (LeadsTo-intent st cli scope) (λ (i, s) same. Always.returns (rw same h))

  Leads-prepared :
      (cli : Cli) (t : Transport Buf) (r : Option Req × Request Buf × Scope)
      → Always (Leads Starts) (prepared e cli t r)
  unfolding prepared
  Leads-prepared cli t (some m, req, scope) = Always.returns Starts.to_send
  Leads-prepared cli t (none, req, scope) = Always.panics

  Leads-maybe_new_request :
      (task : Task Cli Req Time) (t : Transport Buf) (scope : Scope)
      → Always (Leads Starts) (maybe_new_request e t task scope)
  unfolding maybe_new_request
  Leads-maybe_new_request Task.close t scope = Always.returns Starts.to_stop
  Leads-maybe_new_request (Task.sleep cli deadline) t scope =
      Leads-intent Starts (idle deadline) cli t scope Starts.to_rest
  Leads-maybe_new_request (Task.request cli m) t scope =
      Always->>= (e.prepare_request m (Request.new t.output) scope) _ (λ r. Leads-prepared cli t r)

  -- A head that is read is the start of a body.
  abbrev StartsBody : Parsing e → Type 0
  StartsBody (ok st, inp, req, scope) = phase e st ≡ Phase.reads_body
  StartsBody (err x, inp, req, scope) = Unit

  StartsBody-received :
      (end : ℕ) (body : BodyKind) (inp : Buf)
      (r : Option (Req × RecvMode × Time) × Request Buf × Scope)
      → Always StartsBody (received e end body inp r)
  unfolding received
  StartsBody-received end body inp (none, req, scope) = Always.returns tt
  StartsBody-received end body inp (some (m, mode, deadline), req, scope) = Always.returns refl

  StartsBody-scanned_head :
      (end ver code : ℕ) (raw : RawResponse) (reason : _) (inp : Buf) (m : Req) (req : Request Buf)
      (scope : Scope) (framing : Result (BodyKind × Bool) (Unit {0}))
      → Always StartsBody (scanned_head e end ver code raw reason inp m req scope framing)
  unfolding scanned_head
  StartsBody-scanned_head end ver code raw reason inp m req scope (err x) = Always.returns tt
  StartsBody-scanned_head end ver code raw reason inp m req scope (ok framing) =
      Always->>= (e.headers_received m (head_of ver code raw reason framing) req scope) _
        (λ r. StartsBody-received end framing.0 inp r)

  StartsBody-parsed_head :
      (end : ℕ) (inp : Buf) (m : Req) (req : Request Buf) (is_head : Bool) (scope : Scope)
      (p : Parsed)
      → Always StartsBody (parsed_head e end inp m req is_head scope p)
  unfolding parsed_head
  StartsBody-parsed_head end inp m req is_head scope partial = Always.panics
  StartsBody-parsed_head end inp m req is_head scope failed = Always.returns tt
  StartsBody-parsed_head end inp m req is_head scope (complete x raw) =
      Always->>= (assert (x == end + 4)) _ (λ u. Always->>= (unwrap raw.version) _ (λ ver.
        Always->>= (unwrap raw.code) _ (λ code.
          Always->>= (unwrap raw.reason) _
            (λ reason. StartsBody-scanned_head end ver code raw reason inp m req scope _))))

  Step-head_read :
      (end : ℕ) (cli : Cli) (t : Transport Buf) (p : Parsing e)
      → StartsBody p
      → Always (Leads (Step {Io = Io} (Event.arrived end) Phase.awaits_head)) (head_read e cli t p)
  unfolding head_read
  Step-head_read end cli t (ok st, inp, req, scope) h =
      Leads-intent (Step {Io = Io} (Event.arrived end) Phase.awaits_head) st cli _ scope
        (rw h Step.head)
  Step-head_read end cli t (err x, inp, req, scope) h = Always.returns Step.bad_head

  Step-read_head :
      (rh : ReadHeaders Req) (end : ℕ) (cli : Cli) (t : Transport Buf) (scope : Scope)
      → Always
          (Leads (Step {Io = Io} (Event.arrived end) Phase.awaits_head))
          (read_head e rh end cli t scope)
  unfolding read_head parse_headers
  Step-read_head rh end cli t scope = Always->>= (unwrap rh.is_head) _ (λ is_head.
      Always-bind _
        (Always->>= (slice 0 (end + 4) (ops.contents t.input)) _ (λ text.
          StartsBody-parsed_head end t.input rh.machine _ is_head scope (e.parse_response text)))
        (λ p h. Step-head_read end cli t p h))

  Step-after_round :
      (end : ℕ) (r : Response Req Time) (cli : Cli) (next : Round e)
      → Always
          (Leads (Step {Io = Io} (Event.arrived end) Phase.reads_body))
          (after_round e r cli next)
  unfolding after_round finish intent
  Step-after_round end r cli (goes_on none p inp req scope) = Always.panics
  Step-after_round end r cli (goes_on (some m) p inp req scope) =
      Leads-intent (Step {Io = Io} (Event.arrived end) Phase.reads_body)
        (response (record r { progress = p; machine = m; request = req.message.1 })) cli _ scope
        Step.more
  Step-after_round end r cli (closed inp req scope) = Always.returns Step.cut
  Step-after_round end r cli (finished inp req scope) =
      elim (Bool-cases (is_complete req.message.1)) [
        | inl y ↦ rw y (Always.returns Step.whole)
        | inr n ↦ rw n (Always.returns Step.cut)
      ]

  Step-exception :
      (x : Exception Io) (st : State e) (cli : Cli) (t : Transport Buf) (scope : Scope)
      → Always (Leads (Step (Event.broken x) (phase e st))) (exception e st x cli t scope)
  unfolding exception
  Step-exception x st cli t scope = Always->>= (protocol_error x) _ (λ reason.
      Always->>= (tell_requester e st reason scope) _ (λ scope₁.
        Always->>= (e.connection_error cli reason scope₁) _ (λ scope₂. Always.returns Step.error)))

  -- A task that is asked for is a step of the event, where its starts are.
  Step-task :
      (event : Event Io) (p : Phase)
      → ((q : Phase) → Starts q → Step event p q)
      → (asked : Outcome (Task Cli Req Time × Scope)) (t : Transport Buf)
      → Always (Leads (Step event p)) (do (task, scope) ← asked; maybe_new_request e t task scope)
  Step-task event p h asked t = Always->>= asked _ (λ (task, scope).
      Always-map (λ (i, t', s). h (phase_after e i)) (Leads-maybe_new_request task t scope))

  Step-handle :
      (event : Event Io) (st : State e) (cli : Cli) (t : Transport Buf) (scope : Scope)
      → Always (Leads (Step event (phase e st))) (handle e event st cli t scope)
  unfolding bytes_read bytes_flushed new_task timeout wakeup read_body
  Step-handle (Event.arrived end) (read_headers rh) cli t scope = Step-read_head rh end cli t scope
  Step-handle (Event.arrived end) (response r) cli t scope =
      Always->>=
        (round e r.progress end r.machine t.input
          (record { message = (t.output, r.request); is_head = none }) scope)
        _ (λ next. Step-after_round end r cli next)
  Step-handle (Event.arrived end) (idle d) cli t scope = Always.returns Step.unasked
  Step-handle (Event.arrived end) (connecting d) cli t scope = Always.panics
  Step-handle (Event.arrived end) (flushing d) cli t scope = Always.panics
  Step-handle Event.flushed (connecting d) cli t scope =
      Step-task Event.flushed Phase.connects (λ q. Step.connected)
        (e.connection_idle cli (idle_connection e) scope) t
  Step-handle Event.flushed (flushing d) cli t scope =
      Step-task Event.flushed Phase.flushes (λ q. Step.sent)
        (e.connection_idle cli (idle_connection e) scope) t
  Step-handle Event.flushed (idle d) cli t scope = Always.panics
  Step-handle Event.flushed (read_headers rh) cli t scope = Always.panics
  Step-handle Event.flushed (response r) cli t scope = Always.panics
  Step-handle Event.timed_out (idle d) cli t scope =
      Step-task Event.timed_out Phase.rests (λ q. Step.rested)
        (e.client_timeout cli (idle_connection e) scope) t
  Step-handle Event.timed_out (connecting d) cli t scope = Always.panics
  Step-handle Event.timed_out (flushing d) cli t scope = Always.panics
  Step-handle Event.timed_out (read_headers rh) cli t scope = Always.panics
  Step-handle Event.timed_out (response r) cli t scope = Always.panics
  Step-handle Event.woken (connecting d) cli t scope =
      Leads-intent (Step {Io = Io} Event.woken Phase.connects) (connecting d) cli t scope
        Step.connects_on
  Step-handle Event.woken (flushing d) cli t scope =
      Leads-intent (Step {Io = Io} Event.woken Phase.flushes) (flushing d) cli t scope
        Step.flushes_on
  Step-handle Event.woken (idle d) cli t scope =
      Step-task Event.woken Phase.rests (λ q. Step.roused)
        (e.client_wakeup cli (idle_connection e) scope) t
  Step-handle Event.woken (read_headers rh) cli t scope = Always.panics
  Step-handle Event.woken (response r) cli t scope = Always.panics
  Step-handle (Event.broken x) st cli t scope = Step-exception x st cli t scope

  -- An event of the client's connection, with any handler, is a step of its life: where it is
  -- handled without a panic, the phase of the state and that of the reply are related by a step of
  -- that event. So a timeout is handled only between two requests, a wakeup never while a response
  -- is awaited, and a response is the only way from a request to the next.
  pub handle-Step :
      (event : Event Io) (st : State e) (cli : Cli) (t : Transport Buf) (scope : Scope)
      (reply : Reply e)
      → handle e event st cli t scope ≡ ret reply
      → Step event (phase e st) (phase_after e reply.0)
  handle-Step event st cli t scope reply h = Always-ret (Step-handle event st cli t scope) h
