-- ===== src/Client/Parser/Phase.antt =====
-- client/parser.rs: the phases of a client's connection, and what each event may lead to.
use rotor_http.Prelude.{ℕ, Outcome}
use rotor_http.Client.Error.{Exception}
use rotor_http.Client.Parser.Events.{bytes_read, bytes_flushed, exception, timeout, wakeup}
use rotor_http.Client.Parser.{
  connecting, idle, read_headers, response, flushing, Intent, State, Reply,
}
use rotor_http.Client.Protocol.{Env, Transport}

-- What the transport may tell a connection.
pub data Event (Io : Type 0) : Type 0 where
  arrived : ℕ → Event Io
  flushed timed_out woken : Event Io
  broken : Exception Io → Event Io

pub data Phase : Type 0 where
  connects rests awaits_head reads_body flushes over : Phase

-- A task of the client: to rest, to send a request, or to stop.
pub data Starts : Phase → Type 0 where
  to_rest : Starts Phase.rests
  to_send : Starts Phase.awaits_head
  to_stop : Starts Phase.over

-- The client is asked for a task when it is connected, when a request is flushed behind its
-- response, and at a timeout or a wakeup between two requests. A head leads to a body, a body to
-- more of it or to a flush; both may end the connection, as may input between two requests. An
-- error ends it in every phase.
pub data Step {Io : Type 0} : Event Io → Phase → Phase → Type 0 where
  connected : {q : Phase} → Starts q → Step Event.flushed Phase.connects q
  sent : {q : Phase} → Starts q → Step Event.flushed Phase.flushes q
  rested : {q : Phase} → Starts q → Step Event.timed_out Phase.rests q
  roused : {q : Phase} → Starts q → Step Event.woken Phase.rests q
  connects_on : Step Event.woken Phase.connects Phase.connects
  flushes_on : Step Event.woken Phase.flushes Phase.flushes
  head : {end : ℕ} → Step (Event.arrived end) Phase.awaits_head Phase.reads_body
  bad_head : {end : ℕ} → Step (Event.arrived end) Phase.awaits_head Phase.over
  more : {end : ℕ} → Step (Event.arrived end) Phase.reads_body Phase.reads_body
  whole : {end : ℕ} → Step (Event.arrived end) Phase.reads_body Phase.flushes
  cut : {end : ℕ} → Step (Event.arrived end) Phase.reads_body Phase.over
  unasked : {end : ℕ} → Step (Event.arrived end) Phase.rests Phase.over
  error : {x : Exception Io} {p : Phase} → Step (Event.broken x) p Phase.over

module _ (e : Env) where
  open e use {Buf, Cli, Req, Seed, Scope, Time, Io, ops}

  abbrev pub phase : State e → Phase
  phase (connecting dline) = Phase.connects
  phase (idle dline) = Phase.rests
  phase (read_headers rh) = Phase.awaits_head
  phase (response r) = Phase.reads_body
  phase (flushing dline) = Phase.flushes

  abbrev pub phase_after : Intent Cli Req Time → Phase
  phase_after Intent.done = Phase.over
  phase_after (Intent.of cli st exp deadline) = phase st

  abbrev pub handle : Event Io → State e → Cli → Transport Buf → Scope → Outcome (Reply e)
  handle (Event.arrived end) st cli t scope = bytes_read e st end cli t scope
  handle Event.flushed st cli t scope = bytes_flushed e st cli t scope
  handle Event.timed_out st cli t scope = timeout e st cli t scope
  handle Event.woken st cli t scope = wakeup e st cli t scope
  handle (Event.broken x) st cli t scope = exception e st x cli t scope
