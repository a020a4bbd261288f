-- ===== src/Server/Parser/Safety.antt =====
-- What holds over every event of a connection that reads a body: the limit of a buffered body, and
-- the end of a connection at an exception.
use rotor_http.Prelude.{
  ℕ, Bytes, refl, arith, ◌≡◌, Option, none, some, ret, Always, Always->>=, Always-ret, Always-map,
}
use rotor_http.Message.{Message}
use rotor_http.Server.Parser.{
  BodyProgress, buffer_chunked, ReadBody, reading_body, Intent, Expectation,
}
use rotor_http.Server.Parser.Events.{
  Exception, State, bytes_read, bytes_flushed, time_out, body_timeout, timeout, wakeup, exception,
}
use rotor_http.Server.Parser.Head.{Reply}
use rotor_http.Server.Parser.Limits.{
  Within, with_announced, KeepsReply, KeepsRound-round, KeepsReply-after_round,
  KeepsReply-intent_body, Ends, Ends-KeepsReply, Ends-give_up, Ends-exception,
}
use rotor_http.Server.Parser.Reading.{and_then, read_body}
use rotor_http.Server.Parser.Phase.{Event, react}
use rotor_http.Server.Protocol.{Env, Transport, ChunkSize}

-- The sum of the chunks of a body, behind an event.
abbrev pub summed : (Bytes → ChunkSize) → ℕ → Event → BodyProgress → Bytes → ℕ
summed parse n (Event.arrived end) p input = with_announced parse n p end input
summed parse n _ p input = n

module _ (e : Env) where
  open e use {Buf, Machine, Seed, Scope, Time, Addr, ops}

  KeepsReply-body_timeout :
      (l n : ℕ) (rb : ReadBody Machine Time) (seed : Seed) (t : Transport Buf Addr)
      (reply : Option (Machine × Time) × Message Buf × Scope)
      → Within l n rb.progress
      → Always (KeepsReply e l n) (body_timeout e rb seed t reply)
  unfolding body_timeout
  KeepsReply-body_timeout l n rb seed t (some (m, deadline), resp, scope) h =
      KeepsReply-intent_body e l n _ seed _ scope h
  KeepsReply-body_timeout l n rb seed t (none, resp, scope) h =
      Always-map (Ends-KeepsReply e l n) (Ends-give_up e _ resp seed t scope)

  KeepsReply-react :
      (l n : ℕ) (event : Event) (rb : ReadBody Machine Time) (seed : Seed) (t : Transport Buf Addr)
      (scope : Scope)
      → Within l n rb.progress
      → Always
          (KeepsReply e l (summed e.parse_chunk_size n event rb.progress (ops.contents t.input)))
          (react e event (reading_body rb) seed t scope)
  unfolding bytes_read bytes_flushed read_body timeout wakeup
  KeepsReply-react l n (Event.arrived end) rb seed t scope h =
      KeepsReply-after_round e l _ rb seed t _ (
        KeepsRound-round e l n rb.progress end rb.machine seed t.input (t.output, rb.response) scope
          h)
  KeepsReply-react l n Event.flushed rb seed t scope h = Always.panics
  KeepsReply-react l n Event.timed_out rb seed t scope h =
      Always->>= (time_out e rb.machine (t.output, rb.response) scope) _
        (λ reply. KeepsReply-body_timeout l n rb seed t reply h)
  KeepsReply-react l n Event.woken rb seed t scope h =
      Always->>= (and_then e rb.machine e.wakeup (t.output, rb.response) scope) _
        (λ (m, resp, scope'). KeepsReply-intent_body e l n _ seed _ scope' h)
  KeepsReply-react l n (Event.failed x) rb seed t scope h =
      Always-map (Ends-KeepsReply e l n) (Ends-exception e (reading_body rb) x seed t scope)

  -- A buffered chunked body that is read, by the sum of the sizes that its size lines have
  -- announced: from its start, over any events with any input, as long as they are handled without a
  -- panic and the connection goes on with the body.
  pub data Reads (l : ℕ) : ReadBody Machine Time → ℕ → Type 0 where
    begins : {rb : ReadBody Machine Time} → rb.progress ≡ buffer_chunked l 0 0 → Reads l rb 0
    then_event :
        {rb rb' : ReadBody Machine Time} {n : ℕ} {seed' : Seed} {t' : Transport Buf Addr}
        {scope' : Scope} {exp : Expectation} {deadline : Time} (event : Event) (seed : Seed)
        (t : Transport Buf Addr) (scope : Scope)
        → Reads l rb n
        → react e event (reading_body rb) seed t scope
          ≡ ret (Intent.of (reading_body rb') seed' exp deadline, t', scope')
        → Reads l rb' (summed e.parse_chunk_size n event rb.progress (ops.contents t.input))

  -- A buffered chunked body never outgrows the limit that the handler has set: over any events
  -- with any input, from the start of the body as long as the connection goes on with it, the sizes
  -- of all chunks that the size lines have announced add up to no more than the limit, and what
  -- the parser keeps as buffered and as left of the chunk adds up to the same.
  pub Reads-Within :
      (l : ℕ) (rb : ReadBody Machine Time) (n : ℕ) → Reads l rb n → Within l n rb.progress
  Reads-Within l rb n (Reads.begins start) = rw start (refl, refl, omega arith)
  Reads-Within l rb n (Reads.then_event {rb = before} {n = sum} event seed t scope reads step) =
      Always-ret
        (KeepsReply-react l sum event before seed t scope (Reads-Within l before sum reads)) step

  -- An exception ends the connection, in every state: if it is handled without a panic, the
  -- connection is closed at once, or waits only until its output is flushed.
  pub exception-Ends :
      (st : State e) (x : Exception) (seed : Seed) (t : Transport Buf Addr) (scope : Scope)
      (r : Reply e)
      → exception e st x seed t scope ≡ ret r
      → Ends e r
  exception-Ends st x seed t scope r step = Always-ret (Ends-exception e st x seed t scope) step
