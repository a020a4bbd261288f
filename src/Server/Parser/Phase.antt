-- ===== src/Server/Parser/Phase.antt =====
-- server/parser.rs: the phases of a connection, and what each event may lead to.
use rotor_http.Prelude.{ℕ, Outcome, ret, ◌>>=◌}
use rotor_http.Server.Parser.Events.{
  Exception, State, bytes_read, bytes_flushed, timeout, wakeup, exception,
}
use rotor_http.Server.Parser.Head.{Reply}
use rotor_http.Server.Parser.{idle, read_headers, reading_body, processing, done_response, Intent}
use rotor_http.Server.Protocol.{Env, Transport}

-- What the transport may tell a connection.
pub data Event : Type 0 where
  arrived : ℕ → Event
  flushed timed_out woken : Event
  failed : Exception → Event

-- Between two requests, within a head, within a body, behind a body that has no answer yet, and
-- behind the last answer.
pub data Phase : Type 0 where
  rests heads reads works flushes over : Phase

-- The end of a connection, at once or behind its output.
pub data Stops : Phase → Type 0 where
  at_once : Stops Phase.over
  behind_output : Stops Phase.flushes

-- What a request leads to when its body is whole or its handler was called.
pub data Completes : Phase → Type 0 where
  to_work : Completes Phase.works
  to_rest : Completes Phase.rests
  to_flush : Completes Phase.flushes

-- What a head leads to.
pub data Heads : Phase → Type 0 where
  to_heads : Heads Phase.heads
  to_reads : Heads Phase.reads
  to_stop : {q : Phase} → Stops q → Heads q

-- A head is awaited between two requests.
pub data Awaits : Phase → Type 0 where
  none_yet : Awaits Phase.rests
  part_of_it : Awaits Phase.heads

pub data Step : Event → Phase → Phase → Type 0 where
  part : {end : ℕ} {p : Phase} → Awaits p → Step (Event.arrived end) p Phase.heads
  head : {end : ℕ} {p : Phase} → Awaits p → Step (Event.arrived end) p Phase.reads
  refused : {end : ℕ} {p q : Phase} → Awaits p → Stops q → Step (Event.arrived end) p q
  more : {end : ℕ} → Step (Event.arrived end) Phase.reads Phase.reads
  whole : {end : ℕ} {q : Phase} → Completes q → Step (Event.arrived end) Phase.reads q
  bad_body : {end : ℕ} → Step (Event.arrived end) Phase.reads Phase.flushes
  too_early : {end : ℕ} → Step (Event.arrived end) Phase.works Phase.works
  too_late : {end : ℕ} → Step (Event.arrived end) Phase.flushes Phase.flushes
  sent : Step Event.flushed Phase.flushes Phase.over
  no_request : Step Event.timed_out Phase.rests Phase.over
  not_sent : Step Event.timed_out Phase.flushes Phase.over
  slow_head : Step Event.timed_out Phase.heads Phase.flushes
  slow_body : {q : Phase} → Stops q → Step Event.timed_out Phase.reads q
  goes_on_reading : Step Event.timed_out Phase.reads Phase.reads
  slow_handler : {q : Phase} → Stops q → Step Event.timed_out Phase.works q
  goes_on_working : Step Event.timed_out Phase.works Phase.works
  stays_idle : Step Event.woken Phase.rests Phase.rests
  stays_heading : Step Event.woken Phase.heads Phase.heads
  stays_reading : Step Event.woken Phase.reads Phase.reads
  answered : {q : Phase} → Completes q → Step Event.woken Phase.works q
  stays_flushing : Step Event.woken Phase.flushes Phase.flushes
  broken : {x : Exception} {p : Phase} → Step (Event.failed x) p Phase.over
  cut : {x : Exception} → Step (Event.failed x) Phase.reads Phase.flushes

module _ (e : Env) where
  open e use {Buf, Machine, Seed, Scope, Time, Addr}

  abbrev pub phase : State e → Phase
  phase idle = Phase.rests
  phase read_headers = Phase.heads
  phase (reading_body rb) = Phase.reads
  phase (processing m r close deadline) = Phase.works
  phase done_response = Phase.flushes

  abbrev pub phase_after : Intent Machine Seed Time → Phase
  phase_after Intent.done = Phase.over
  phase_after (Intent.of st seed exp deadline) = phase st

  abbrev pub react : Event → State e → Seed → Transport Buf Addr → Scope → Outcome (Reply e)
  react (Event.arrived end) st seed t scope = bytes_read e st end seed t scope
  react Event.flushed st seed t scope = do i ← bytes_flushed e st; ret (i, t, scope)
  react Event.timed_out st seed t scope = timeout e st seed t scope
  react Event.woken st seed t scope = wakeup e st seed t scope
  react (Event.failed x) st seed t scope = exception e st x seed t scope
