-- ===== src/TodoBackend/Connection.antt =====
-- examples/todobackend.rs: the handler behind a connection of the server.
use rotor_http.Prelude.{
  ℕ, ◌+◌, ◌^◌, ◌<◌, ◌≡◌, refl, ◌∙◌, Bool, true, if◌then◌else◌, [], ◌++◌, arith, Bytes, length,
  length-append, drop_prefix, some, ret, panic, ◌>>=◌, slice_middle,
}
use rotor_http.Buffer.{BufferLaws}
use rotor_http.Message.{is_complete}
use rotor_http.Server.Error.{http_status}
use rotor_http.Server.Parser.Events.{bytes_read}
use rotor_http.Server.Parser.Head.{going}
use rotor_http.Server.Parser.Reading.{
  round, read_buffer_fixed, receive, and_then, after_round, read_body,
}
use rotor_http.Server.Parser.{buffer_fixed, reading_body, complete, intent_idle, intent_flush}
use rotor_http.Server.Protocol.{Env, Transport}
use rotor_http.Server.Response.{emit_error_page}
use rotor_http.Server.Response.ErrorPage.{unanswered}
use rotor_http.Std.Utf8.{is_utf8}
use rotor_http.TodoBackend.Handler.{Json, TodoBackend, Scope, headers_received, request_received}
use rotor_http.TodoBackend.Requests.{Writes, Readable, request_received-WellFormed}
use rotor_http.TodoBackend.Store.{Context, WellFormed}
use rotor_http.Version.{Version}

-- `TodoBackend` as the handler, on the buffer, the parsers and the clock of an environment, with the
-- default methods of the trait. The methods that are `unreachable!()` and `unimplemented!()` panic.
abbrev pub todo_server : (e : Env) → (ℕ → e.Duration) → Json → Env
todo_server e seconds json = record {
  Buf = e.Buf;
  Machine = TodoBackend;
  Seed = Unit;
  Scope = Scope e.Time;
  Time = e.Time;
  Duration = e.Duration;
  Addr = e.Addr;
  ParseError = e.ParseError;
  ops = e.ops;
  now = λ scope. scope.now;
  add_time = e.add_time;
  parse_request = e.parse_request;
  parse_chunk_size = e.parse_chunk_size;
  headers_received = λ seed request m scope.
      headers_received e.ops json (λ t. e.add_time t (seconds 10)) request m scope;
  request_received = λ todo body m scope.
      request_received e.ops json (λ t. e.add_time t (seconds 10)) todo body m scope;
  bad_request = λ todo m scope. ret (m, scope);
  request_chunk = λ todo piece m scope. panic;
  request_end = λ todo m scope. panic;
  timeout = λ todo m scope. panic;
  wakeup = λ todo m scope. panic;
  emit_error_page =
      λ x m seed scope. (do m' ← emit_error_page e.ops (http_status x) m; ret (m', scope));
  idle_timeout = λ seed scope. (seconds 120, scope);
  header_byte_timeout = λ seed scope. (seconds 45, scope);
  send_response_timeout = λ seed scope. (seconds 3600, scope);
}

module _ (e : Env) (laws : BufferLaws e.ops) (seconds : ℕ → e.Duration) (json : Json)
    (writes : Writes json) where
  open e use {Buf, Time, Addr, ops}
  open ops use {contents, consume}
  open laws use {contents-consume}

  -- The todo list serves a request over a connection: when a buffered body of declared length has
  -- arrived, on a response that has no status line yet, with a body that is UTF-8 and, to create or to
  -- patch an entry, the JSON of one, with ids left, and with a serde_json that writes every value,
  -- `bytes_read` does not panic; the response is complete, so that the connection goes idle, or is
  -- flushed and closed if it was to close; what stands behind the body is left in the input; and the
  -- database, if each of its keys stood in it once and none was above the last id, is so again.
  pub bytes_read-served :
      (todo : TodoBackend) (text rest : Bytes) (v : Version) (continued is_head close last : Bool)
      (deadline : Time) (end : ℕ) (t : Transport Buf Addr) (scope : Scope Time)
      → contents t.input ≡ text ++ rest
      → is_utf8 text ≡ true
      → Readable json todo text
      → scope.context.last_id + 1 < 2 ^ 64
      → WellFormed scope.context
      → (input : Buf) × (output : Buf) × (c : Context) × (bytes_read
            (todo_server e seconds json)
            (reading_body (record {
              machine = some todo;
              deadline = deadline;
              response = unanswered v continued is_head close;
              progress = buffer_fixed (length text);
              connection_close = last;
            }))
            end
            tt
            t
            scope
          ≡ ret (
              going
                (todo_server e seconds json)
                (if last
                  then intent_flush (todo_server e seconds json) tt (record scope { context = c })
                  else intent_idle (todo_server e seconds json) tt (record scope { context = c }))
                (record t { input = input; output = output })))
        × (contents input ≡ rest)
        × WellFormed c
  unfolding bytes_read read_body round read_buffer_fixed receive and_then after_round complete
      is_complete
  bytes_read-served todo text rest v continued is_head close last deadline end t scope holds utf8
        reads word well =
      let (b, c, answers, well') =
        request_received-WellFormed ops json (λ x. e.add_time x (seconds 10)) writes todo text v
          continued is_head close t.output scope utf8 reads word well in
      (
        consume t.input (length text),
        b,
        c,
        rw (holds, slice_middle 0 (length text) [] text rest refl (omega arith), answers),
        contents-consume t.input (length text) (rw holds (omega (arith, length-append text rest)))
            ∙ rw holds (drop_prefix (length text) text rest refl),
        well',
      )
