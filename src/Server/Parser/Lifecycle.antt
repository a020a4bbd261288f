-- ===== src/Server/Parser/Lifecycle.antt =====
-- server/parser.rs: every event of `Protocol for Parser` is a step from one phase to another.
use rotor_http.Prelude.{
  ℕ, ◌≡◌, Bool, Option, none, some, ret, Always, Always->>=, Always-map, Always-ret,
}
use rotor_http.Message.{Message}
use rotor_http.Server.Error.{RequestError}
use rotor_http.Server.Parser.Events.{
  Exception, State, bytes_read, bytes_flushed, give_up, time_out, body_timeout, handler_timed_out,
  timeout, wakeup, exception,
}
use rotor_http.Server.Parser.Head.{Reply, fail_with, fail_early, read_head}
use rotor_http.Server.Parser.Limits.{Ends-give_up, Ends-exception}
use rotor_http.Server.Parser.Phase.{
  Event, Phase, Stops, Heads, Awaits, Step, phase, phase_after, react,
}
use rotor_http.Server.Parser.Reading.{
  Round, goes_on, refused, and_then, round, after_round, read_body,
}
use rotor_http.Server.Parser.{
  ReadBody, idle, read_headers, reading_body, processing, done_response, intent_idle,
  intent_headers, intent_flush, complete,
}
use rotor_http.Server.Protocol.{Env, Transport}
use rotor_http.Server.Parser.Outcomes.{
  Leads, Stops-Ends, Leads-intent_body, Completes-complete, Heads-read_head,
}

module _ (e : Env) where
  open e use {Buf, Machine, Seed, Scope, Time, Addr, ParseError, ops}

  Step-head : {end : ℕ} {p q : Phase} → Awaits p → Heads q → Step (Event.arrived end) p q
  Step-head from Heads.to_heads = Step.part from
  Step-head from Heads.to_reads = Step.head from
  Step-head from (Heads.to_stop how) = Step.refused from how

  Step-read_head :
      (end : ℕ) (p : Phase) (seed : Seed) (t : Transport Buf Addr) (scope : Scope)
      → Awaits p
      → Always (Leads e (Step (Event.arrived end) p)) (read_head e seed t scope)
  Step-read_head end p seed t scope from =
      Always-map (λ r. Step-head from) (Heads-read_head e seed t scope)

  Step-after_round :
      (end : ℕ) (rb : ReadBody Machine Time) (seed : Seed) (t : Transport Buf Addr) (r : Round e)
      → Always (Leads e (Step (Event.arrived end) Phase.reads)) (after_round e rb seed t r)
  unfolding after_round intent_flush
  Step-after_round end rb seed t (refused inp resp scope) = Always.returns Step.bad_body
  Step-after_round end rb seed t (goes_on m none inp resp scope) =
      Always-map (λ r. Step.whole)
        (Completes-complete e seed scope m resp.1 rb.connection_close rb.deadline _)
  Step-after_round end rb seed t (goes_on m (some p) inp resp scope) =
      Leads-intent_body e (Step (Event.arrived end) Phase.reads)
        (record rb { machine = m; progress = p; response = resp.1 }) seed _ scope Step.more

  Stops-give_up :
      (x : RequestError ParseError) (resp : Message Buf) (seed : Seed) (t : Transport Buf Addr)
      (scope : Scope)
      → Always (Leads e Stops) (give_up e x resp seed t scope)
  Stops-give_up x resp seed t scope = Always-map (Stops-Ends e) (Ends-give_up e x resp seed t scope)

  Step-body_timeout :
      (rb : ReadBody Machine Time) (seed : Seed) (t : Transport Buf Addr)
      (reply : Option (Machine × Time) × Message Buf × Scope)
      → Always (Leads e (Step Event.timed_out Phase.reads)) (body_timeout e rb seed t reply)
  unfolding body_timeout
  Step-body_timeout rb seed t (some (m, deadline), resp, scope) =
      Leads-intent_body e (Step Event.timed_out Phase.reads)
        (record rb { machine = some m; deadline = deadline; response = resp.1 }) seed _ scope
        Step.goes_on_reading
  Step-body_timeout rb seed t (none, resp, scope) =
      Always-map (λ r. Step.slow_body) (Stops-give_up _ resp seed t scope)

  Step-handler_timed_out :
      (close : Bool) (seed : Seed) (t : Transport Buf Addr)
      (reply : Option (Machine × Time) × Message Buf × Scope)
      → Always (Leads e (Step Event.timed_out Phase.works)) (handler_timed_out e close seed t reply)
  unfolding handler_timed_out complete
  Step-handler_timed_out close seed t (some (m, deadline), resp, scope) =
      Always.returns Step.goes_on_working
  Step-handler_timed_out close seed t (none, resp, scope) =
      Always-map (λ r. Step.slow_handler) (Stops-give_up _ resp seed t scope)

  Step-broken : (x : Exception) {q : Phase} → Stops q → Step (Event.failed x) Phase.reads q
  Step-broken x Stops.at_once = Step.broken
  Step-broken x Stops.behind_output = Step.cut

  Step-exception :
      (x : Exception) (st : State e) (seed : Seed) (t : Transport Buf Addr) (scope : Scope)
      → Always (Leads e (Step (Event.failed x) (phase e st))) (exception e st x seed t scope)
  unfolding exception
  Step-exception x (reading_body rb) seed t scope =
      Always-map (λ r h. Step-broken x (Stops-Ends e r h))
        (Ends-exception e (reading_body rb) x seed t scope)
  Step-exception x idle seed t scope = Always.returns Step.broken
  Step-exception x read_headers seed t scope = Always.returns Step.broken
  Step-exception x (processing m r c d) seed t scope = Always.returns Step.broken
  Step-exception x done_response seed t scope = Always.returns Step.broken

  Step-react :
      (event : Event) (st : State e) (seed : Seed) (t : Transport Buf Addr) (scope : Scope)
      → Always (Leads e (Step event (phase e st))) (react e event st seed t scope)
  unfolding bytes_read bytes_flushed timeout wakeup read_body fail_early intent_flush intent_idle
      intent_headers fail_with
  Step-react (Event.arrived end) idle seed t scope =
      Step-read_head end Phase.rests seed t scope Awaits.none_yet
  Step-react (Event.arrived end) read_headers seed t scope =
      Step-read_head end Phase.heads seed t scope Awaits.part_of_it
  Step-react (Event.arrived end) (reading_body rb) seed t scope =
      Always->>= (round e rb.progress end rb.machine seed t.input (t.output, rb.response) scope) _
        (λ r. Step-after_round end rb seed t r)
  Step-react (Event.arrived end) (processing m r c d) seed t scope = Always.returns Step.too_early
  Step-react (Event.arrived end) done_response seed t scope = Always.returns Step.too_late
  Step-react Event.flushed done_response seed t scope = Always.returns Step.sent
  Step-react Event.flushed idle seed t scope = Always.panics
  Step-react Event.flushed read_headers seed t scope = Always.panics
  Step-react Event.flushed (reading_body rb) seed t scope = Always.panics
  Step-react Event.flushed (processing m r c d) seed t scope = Always.panics
  Step-react Event.timed_out idle seed t scope = Always.returns Step.no_request
  Step-react Event.timed_out done_response seed t scope = Always.returns Step.not_sent
  Step-react Event.timed_out read_headers seed t scope =
      Always->>= (e.emit_error_page _ _ seed scope) _ (λ r. Always.returns Step.slow_head)
  Step-react Event.timed_out (reading_body rb) seed t scope =
      Always->>= (time_out e rb.machine (t.output, rb.response) scope) _
        (λ reply. Step-body_timeout rb seed t reply)
  Step-react Event.timed_out (processing m r c d) seed t scope =
      Always->>= (e.timeout m (t.output, r) scope) _
        (λ reply. Step-handler_timed_out c seed t reply)
  Step-react Event.woken idle seed t scope = Always.returns Step.stays_idle
  Step-react Event.woken read_headers seed t scope = Always.returns Step.stays_heading
  Step-react Event.woken done_response seed t scope = Always.returns Step.stays_flushing
  Step-react Event.woken (reading_body rb) seed t scope =
      Always->>= (and_then e rb.machine e.wakeup (t.output, rb.response) scope) _
        (λ (m, resp, scope').
          Leads-intent_body e (Step Event.woken Phase.reads)
            (record rb { machine = m; response = resp.1 }) seed _ scope' Step.stays_reading)
  Step-react Event.woken (processing m r c d) seed t scope =
      Always->>= (e.wakeup m (t.output, r) scope) _ (λ (m', resp, scope').
        Always-map (λ x. Step.answered) (Completes-complete e seed scope' m' resp.1 c d _))
  Step-react (Event.failed x) st seed t scope = Step-exception x st seed t scope

  -- An event of a server's connection, with any handler, is a step of its life: where it is
  -- handled without a panic, the phase of the state and that of the reply are related by a step of
  -- that event. So only arriving bytes and wakeups lead from a request to the next, and only
  -- behind its body; output is flushed only behind the last answer; a timeout leads to a new
  -- phase only at the end of the connection, at once or behind its output; and no event leads
  -- out of the flushing but to the end.
  pub react-Step :
      (event : Event) (st : State e) (seed : Seed) (t : Transport Buf Addr) (scope : Scope)
      (reply : Reply e)
      → react e event st seed t scope ≡ ret reply
      → Step event (phase e st) (phase_after e reply.0)
  react-Step event st seed t scope reply h = Always-ret (Step-react event st seed t scope) h
