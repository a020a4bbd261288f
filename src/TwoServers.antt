-- ===== src/TwoServers.antt =====
-- examples/two_servers.rs: two servers on one context, one that counts its requests and one that
-- tells their number. The context and `send_string` are those of examples/hello_world_server.rs, of
-- which the source has a copy.
pub mod Incr
pub mod Get
pub mod Visits
use rotor_http.Prelude.{ℕ, Bytes, Option, Outcome, ret, panic, ◌>>=◌}
use rotor_http.HelloWorld.{Context, Scope}
use rotor_http.Message.{Message}
use rotor_http.RecvMode.{RecvMode}
use rotor_http.Server.Error.{http_status}
use rotor_http.Server.Protocol.{Env, Head}
use rotor_http.Server.Response.{emit_error_page}

-- What a handler of the program does with a head, and with a request.
pub record Handler (Machine Buf Addr Time : Type 0) : Type 0 where
  pub headers_received :
      Head Addr
      → Message Buf
      → Scope Context Time
      → Outcome (Option (Machine × RecvMode × Time) × Message Buf × Scope Context Time)
  pub request_received :
      Machine
      → Bytes
      → Message Buf
      → Scope Context Time
      → Outcome (Option Machine × Message Buf × Scope Context Time)

-- Its environment: the other methods of both are the same, `unreachable!()`, `unimplemented!()` or the
-- trait's own.
abbrev pub served :
    (e : Env) → (ℕ → e.Duration) → {Machine : Type 0} → Handler Machine e.Buf e.Addr e.Time → Env
served e seconds {Machine} handler = record {
  Buf = e.Buf;
  Machine = Machine;
  Seed = Unit;
  Scope = Scope Context e.Time;
  Time = e.Time;
  Duration = e.Duration;
  Addr = e.Addr;
  ParseError = e.ParseError;
  ops = e.ops;
  now = λ scope. scope.now;
  add_time = e.add_time;
  parse_request = e.parse_request;
  parse_chunk_size = e.parse_chunk_size;
  headers_received = λ seed request m scope. handler.headers_received request m scope;
  request_received = handler.request_received;
  bad_request = λ machine m scope. ret (m, scope);
  request_chunk = λ machine piece m scope. panic;
  request_end = λ machine m scope. panic;
  timeout = λ machine m scope. panic;
  wakeup = λ machine m scope. panic;
  emit_error_page =
      λ x m seed scope. (do m' ← emit_error_page e.ops (http_status x) m; ret (m', scope));
  idle_timeout = λ seed scope. (seconds 120, scope);
  header_byte_timeout = λ seed scope. (seconds 45, scope);
  send_response_timeout = λ seed scope. (seconds 3600, scope);
}
