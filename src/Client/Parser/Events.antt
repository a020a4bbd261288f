-- ===== src/Client/Parser/Events.antt =====
-- client/parser.rs: the events of a connection (`Protocol for Parser`).
use rotor_http.Prelude.{ℕ, true, none, Outcome, ret, panic, ◌>>=◌, unwrap, ok, err}
use rotor_http.Client.Error.{Exception, ProtocolError, connection, protocol_error}
use rotor_http.Client.Parser.Head.{Parsing, parse_headers, maybe_new_request}
use rotor_http.Client.Parser.Reading.{read_body}
use rotor_http.Client.Parser.{
  connecting, idle, read_headers, ReadHeaders, response, flushing, Intent, State, Reply, intent,
}
use rotor_http.Client.Protocol.{Env, Transport, Connection}

module _ (e : Env) where
  open e use {Buf, Cli, Req, Seed, Scope, Time, Io, ops, now, add_time}

  unfoldable pub create : Seed → Scope → Outcome (Intent Cli Req Time × Scope)
  create seed scope = do
    (cli, scope₁) ← e.create seed scope
    let (wait, scope₂) = e.connect_timeout cli scope₁
    intent e (connecting (add_time (now scope₁) wait)) cli scope₂

  -- The match on `parse_headers`.
  unfoldable pub head_read : Cli → Transport Buf → Parsing e → Outcome (Reply e)
  head_read cli t (ok st, inp, req, scope) = do
    (i, scope') ← intent e st cli scope
    ret (i, record { input = inp; output = req.message.0 }, scope')
  head_read cli t (err x, inp, req, scope) =
      ret (Intent.done, record { input = inp; output = req.message.0 }, scope)

  -- The arm of `bytes_read` in the state `ReadHeaders`.
  unfoldable pub read_head : ReadHeaders Req → ℕ → Cli → Transport Buf → Scope → Outcome (Reply e)
  unfolding head_read
  read_head rh end cli t scope = do
    is_head ← unwrap rh.is_head
    r ←
        parse_headers e t.input end rh.machine
          (record { message = (t.output, rh.request); is_head = none }) is_head scope
    head_read cli t r

  unfoldable pub bytes_read : State e → ℕ → Cli → Transport Buf → Scope → Outcome (Reply e)
  bytes_read (read_headers rh) end cli t scope = read_head rh end cli t scope
  bytes_read (response r) end cli t scope = read_body e r end cli t scope
  bytes_read (idle dline) end cli t scope = ret (Intent.done, t, scope)
  bytes_read (connecting dline) end cli t scope = panic
  bytes_read (flushing dline) end cli t scope = panic

  abbrev pub idle_connection : Connection
  idle_connection = record { is_idle = true }

  unfoldable pub new_task : Cli → Transport Buf → Scope → Outcome (Reply e)
  new_task cli t scope = do
    (task, scope') ← e.connection_idle cli idle_connection scope
    maybe_new_request e t task scope'

  -- The states in which output is awaited; the others are `unreachable!()` and `unimplemented!()`.
  unfoldable pub bytes_flushed : State e → Cli → Transport Buf → Scope → Outcome (Reply e)
  unfolding new_task
  bytes_flushed (connecting dline) cli t scope = new_task cli t scope
  bytes_flushed (flushing dline) cli t scope = new_task cli t scope
  bytes_flushed (idle dline) cli t scope = panic
  bytes_flushed (read_headers rh) cli t scope = panic
  bytes_flushed (response r) cli t scope = panic

  -- The handler of the request that is under way is told of the error.
  unfoldable pub tell_requester : State e → ProtocolError Io → Scope → Outcome Scope
  tell_requester (read_headers rh) reason scope =
      e.bad_response rh.machine (connection reason) scope
  tell_requester (response r) reason scope = e.bad_response r.machine (connection reason) scope
  tell_requester (connecting dline) reason scope = ret scope
  tell_requester (idle dline) reason scope = ret scope
  tell_requester (flushing dline) reason scope = ret scope

  unfoldable pub exception :
      State e → Exception Io → Cli → Transport Buf → Scope → Outcome (Reply e)
  unfolding tell_requester
  exception st x cli t scope = do
    reason ← protocol_error x
    scope₁ ← tell_requester st reason scope
    scope₂ ← e.connection_error cli reason scope₁
    ret (Intent.done, t, scope₂)

  -- The result is `None`: the error is not passed on.
  unfoldable pub fatal : State e → Exception Io → Cli → Scope → Outcome Scope
  fatal st x cli scope = do reason ← protocol_error x; e.connection_error cli reason scope

  -- `unimplemented!()` but on an idle connection.
  unfoldable pub timeout : State e → Cli → Transport Buf → Scope → Outcome (Reply e)
  timeout (idle dline) cli t scope = do
    (task, scope') ← e.client_timeout cli idle_connection scope
    maybe_new_request e t task scope'
  timeout (connecting dline) cli t scope = panic
  timeout (read_headers rh) cli t scope = panic
  timeout (response r) cli t scope = panic
  timeout (flushing dline) cli t scope = panic

  unfoldable pub wakeup : State e → Cli → Transport Buf → Scope → Outcome (Reply e)
  wakeup (connecting dline) cli t scope = do
    (i, scope') ← intent e (connecting dline) cli scope
    ret (i, t, scope')
  wakeup (flushing dline) cli t scope = do
    (i, scope') ← intent e (flushing dline) cli scope
    ret (i, t, scope')
  wakeup (idle dline) cli t scope = do
    (task, scope') ← e.client_wakeup cli idle_connection scope
    maybe_new_request e t task scope'
  wakeup (read_headers rh) cli t scope = panic
  wakeup (response r) cli t scope = panic
