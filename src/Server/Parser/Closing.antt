-- ===== src/Server/Parser/Closing.antt =====
-- server/parser.rs: a connection that closes behind the request (`connection_close`), over its
-- events.
use rotor_http.Prelude.{
  ◌≡◌, refl, Bool, true, Bool-cases, inl, inr, Option, none, some, Outcome, ret, panic, Always,
  Always->>=, Always-map, Always-ret, ◌>>=◌,
}
use rotor_http.Message.{Message, is_complete}
use rotor_http.Message.State.{MessageState}
use rotor_http.Server.Error.{RequestError}
use rotor_http.Server.Parser.Events.{
  State, bytes_read, bytes_flushed, give_up, time_out, body_timeout, handler_timed_out, timeout,
  wakeup,
}
use rotor_http.Server.Parser.Head.{Reply, going}
use rotor_http.Server.Parser.Limits.{Ends, Ends-give_up, Ends-exception}
use rotor_http.Server.Parser.Reading.{
  Round, goes_on, refused, and_then, round, after_round, read_body,
}
use rotor_http.Server.Parser.Phase.{Event, react}
use rotor_http.Server.Parser.{
  ReadBody, idle, read_headers, reading_body, processing, done_response, Intent, Expectation,
  body_expectation, intent_flush, intent_body, complete,
}
use rotor_http.Server.Protocol.{Env, Transport}

module _ (e : Env) where
  open e use {Buf, Machine, Seed, Scope, Time, Addr, ParseError}

  -- No request follows: a body is read or a handler is waited for in a connection that closes, or
  -- the output is flushed before the end.
  abbrev pub Closing : State e → Type 0
  Closing (reading_body rb) = rb.connection_close ≡ true
  Closing (processing m r close deadline) = close ≡ true
  Closing done_response = Unit
  Closing idle = ⊥
  Closing read_headers = ⊥

  abbrev pub ClosingReply : Reply e → Type 0
  ClosingReply (Intent.done, t, scope) = Unit
  ClosingReply (Intent.of st seed exp deadline, t, scope) = Closing st

  pub ClosingReply-Ends : (r : Reply e) → Ends e r → ClosingReply r
  ClosingReply-Ends (Intent.done, t, scope) h = tt
  ClosingReply-Ends (Intent.of done_response seed exp deadline, t, scope) h = tt
  ClosingReply-Ends (Intent.of idle seed exp deadline, t, scope) h = absurd h
  ClosingReply-Ends (Intent.of read_headers seed exp deadline, t, scope) h = absurd h
  ClosingReply-Ends (Intent.of (processing m r c d) seed exp deadline, t, scope) h = absurd h
  ClosingReply-Ends (Intent.of (reading_body rb) seed exp deadline, t, scope) h = absurd h

  pub ClosingReply-intent_body :
      (rb : ReadBody Machine Time) (seed : Seed) (t : Transport Buf Addr) (scope : Scope)
      → rb.connection_close ≡ true
      → Always ClosingReply (do intent ← intent_body e seed rb; ret (intent, t, scope))
  unfolding intent_body
  ClosingReply-intent_body rb seed t scope h = of_expectation (body_expectation rb.progress)
    where
      of_expectation :
          (o : Outcome Expectation)
          → Always ClosingReply (do
            intent ← (do exp ← o; ret (Intent.of (reading_body rb) seed exp rb.deadline))
            ret (intent, t, scope))
      of_expectation (ret x) = Always.returns h
      of_expectation panic = Always.panics

  ClosingReply-complete :
      (seed : Seed) (scope : Scope) (m : Option Machine) (state : MessageState) (deadline : Time)
      (t : Transport Buf Addr)
      → Always ClosingReply
          (do reply ← complete e seed scope m state true deadline; ret (going e reply t))
  unfolding complete intent_flush
  ClosingReply-complete seed scope (some m) state deadline t = Always.returns refl
  ClosingReply-complete seed scope none state deadline t = elim (Bool-cases (is_complete state)) [
    | inr part ↦ rw part Always.panics
    | inl whole ↦ rw whole (Always.returns tt)
  ]

  ClosingReply-after_round :
      (rb : ReadBody Machine Time) (seed : Seed) (t : Transport Buf Addr) (r : Round e)
      → rb.connection_close ≡ true
      → Always ClosingReply (after_round e rb seed t r)
  unfolding after_round intent_flush
  ClosingReply-after_round rb seed t (refused inp resp scope) h = Always.returns tt
  ClosingReply-after_round rb seed t (goes_on m none inp resp scope) h =
      rw h (ClosingReply-complete seed scope m resp.1 rb.deadline _)
  ClosingReply-after_round rb seed t (goes_on m (some p) inp resp scope) h =
      ClosingReply-intent_body (record rb { machine = m; progress = p; response = resp.1 }) seed _
        scope h

  ClosingReply-give_up :
      (x : RequestError ParseError) (resp : Message Buf) (seed : Seed) (t : Transport Buf Addr)
      (scope : Scope)
      → Always ClosingReply (give_up e x resp seed t scope)
  ClosingReply-give_up x resp seed t scope =
      Always-map ClosingReply-Ends (Ends-give_up e x resp seed t scope)

  ClosingReply-body_timeout :
      (rb : ReadBody Machine Time) (seed : Seed) (t : Transport Buf Addr)
      (reply : Option (Machine × Time) × Message Buf × Scope)
      → rb.connection_close ≡ true
      → Always ClosingReply (body_timeout e rb seed t reply)
  unfolding body_timeout
  ClosingReply-body_timeout rb seed t (some (m, deadline), resp, scope) h =
      ClosingReply-intent_body
        (record rb { machine = some m; deadline = deadline; response = resp.1 }) seed _ scope h
  ClosingReply-body_timeout rb seed t (none, resp, scope) h =
      ClosingReply-give_up _ resp seed t scope

  ClosingReply-handler_timed_out :
      (seed : Seed) (t : Transport Buf Addr) (reply : Option (Machine × Time) × Message Buf × Scope)
      → Always ClosingReply (handler_timed_out e true seed t reply)
  unfolding handler_timed_out
  ClosingReply-handler_timed_out seed t (some (m, deadline), resp, scope) =
      ClosingReply-complete seed scope (some m) resp.1 deadline _
  ClosingReply-handler_timed_out seed t (none, resp, scope) =
      ClosingReply-give_up _ resp seed t scope

  ClosingReply-body :
      (event : Event) (rb : ReadBody Machine Time) (seed : Seed) (t : Transport Buf Addr)
      (scope : Scope)
      → rb.connection_close ≡ true
      → Always ClosingReply (react e event (reading_body rb) seed t scope)
  unfolding bytes_read bytes_flushed read_body timeout wakeup
  ClosingReply-body (Event.arrived end) rb seed t scope h =
      Always->>= (round e rb.progress end rb.machine seed t.input (t.output, rb.response) scope) _
        (λ r. ClosingReply-after_round rb seed t r h)
  ClosingReply-body Event.flushed rb seed t scope h = Always.panics
  ClosingReply-body Event.timed_out rb seed t scope h =
      Always->>= (time_out e rb.machine (t.output, rb.response) scope) _
        (λ reply. ClosingReply-body_timeout rb seed t reply h)
  ClosingReply-body Event.woken rb seed t scope h =
      Always->>= (and_then e rb.machine e.wakeup (t.output, rb.response) scope) _
        (λ (m, resp, scope').
          ClosingReply-intent_body (record rb { machine = m; response = resp.1 }) seed _ scope' h)
  ClosingReply-body (Event.failed x) rb seed t scope h =
      Always-map ClosingReply-Ends (Ends-exception e (reading_body rb) x seed t scope)

  ClosingReply-processing :
      (event : Event) (m : Machine) (r : MessageState) (close : Bool) (deadline : Time)
      (seed : Seed) (t : Transport Buf Addr) (scope : Scope)
      → close ≡ true
      → Always ClosingReply (react e event (processing m r close deadline) seed t scope)
  unfolding bytes_read bytes_flushed timeout wakeup
  ClosingReply-processing (Event.arrived end) m r close deadline seed t scope h = Always.returns h
  ClosingReply-processing Event.flushed m r close deadline seed t scope h = Always.panics
  ClosingReply-processing Event.timed_out m r close deadline seed t scope h =
      Always->>= (e.timeout m (t.output, r) scope) _
        (λ reply. rw h (ClosingReply-handler_timed_out seed t reply))
  ClosingReply-processing Event.woken m r close deadline seed t scope h =
      Always->>= (e.wakeup m (t.output, r) scope) _
        (λ (m', resp, scope'). rw h (ClosingReply-complete seed scope' m' resp.1 deadline _))
  ClosingReply-processing (Event.failed x) m r close deadline seed t scope h =
      Always-map ClosingReply-Ends (Ends-exception e (processing m r close deadline) x seed t scope)

  ClosingReply-react :
      (event : Event) (st : State e) (seed : Seed) (t : Transport Buf Addr) (scope : Scope)
      → Closing st
      → Always ClosingReply (react e event st seed t scope)
  unfolding bytes_read bytes_flushed timeout wakeup intent_flush
  ClosingReply-react event (reading_body rb) seed t scope h =
      ClosingReply-body event rb seed t scope h
  ClosingReply-react event (processing m r close deadline) seed t scope h =
      ClosingReply-processing event m r close deadline seed t scope h
  ClosingReply-react event idle seed t scope h = absurd h
  ClosingReply-react event read_headers seed t scope h = absurd h
  ClosingReply-react (Event.arrived end) done_response seed t scope h = Always.returns tt
  ClosingReply-react Event.flushed done_response seed t scope h = Always.returns tt
  ClosingReply-react Event.timed_out done_response seed t scope h = Always.returns tt
  ClosingReply-react Event.woken done_response seed t scope h = Always.returns tt
  ClosingReply-react (Event.failed x) done_response seed t scope h =
      Always-map ClosingReply-Ends (Ends-exception e done_response x seed t scope)

  -- A connection that is to close never reads another request: in a state that closes behind the
  -- request, any event (input, flushed output, a timeout, a wakeup or an exception) that is handled
  -- without a panic leads to such a state, with whatever the handler does, or ends the connection.
  pub react-Closing :
      (event : Event) (st : State e) (seed : Seed) (t : Transport Buf Addr) (scope : Scope)
      (reply : Reply e)
      → Closing st
      → react e event st seed t scope ≡ ret reply
      → ClosingReply reply
  react-Closing event st seed t scope reply h step =
      Always-ret (ClosingReply-react event st seed t scope h) step
