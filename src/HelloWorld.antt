-- ===== src/HelloWorld.antt =====
-- examples/hello_world_server.rs: a handler of the server that greets and counts its requests.
pub mod Pages
pub mod Visits
use rotor_http.Prelude.{
  ℕ, ◌+◌, if◌then◌else◌, Bool, true, false, ◌==◌, List, [], ◌∷◌, ◌++◌, Bytes, codes, length, Option,
  none, some, Outcome, ret, panic, ◌>>=◌, ◌>>◌, unwrap_ok, add_u64,
}
use rotor_http.Buffer.{BufferOps}
use rotor_http.Message.{Message}
use rotor_http.RecvMode.{RecvMode, buffered}
use rotor_http.Server.Error.{http_status}
use rotor_http.Server.Protocol.{Env, Head}
use rotor_http.Server.Response.{status, add_length, done_headers, write_body, done, emit_error_page}
use rotor_http.Std.Ascii.{bytes_eq}
use rotor_http.Std.Radix.{to_string}

-- `trait Counter`, which the copies of this handler implement in their own ways.
pub record Counter (C : Type 0) : Type 0 where
  pub increment : C → Outcome C
  pub get : C → ℕ

-- `Context` with its `usize`.
pub record Context : Type 0 where
  pub counter : ℕ

unfoldable pub increment : Context → Outcome Context
increment c = do n ← add_u64 c.counter 1; ret (record { counter = n })

abbrev pub plain : Counter Context
plain = record { increment = increment; get = λ c. c.counter }

pub data HelloWorld : Type 0 where
  hello get_num page_not_found : HelloWorld
  hello_name : Bytes → HelloWorld

-- A page with its length. The code of `send_string`, and that of the arm `PageNotFound`.
unfoldable pub send_page :
    {Buf : Type 0} → BufferOps Buf → ℕ → Bytes → Bytes → Message Buf → Outcome (Message Buf)
send_page ops code reason page m = do
  m₁ ← status ops code reason m
  (r₂, m₂) ← add_length ops (length page) m₁
  unwrap_ok r₂
  (r₃, m₃) ← done_headers ops m₂
  _expects ← unwrap_ok r₃
  m₄ ← write_body ops page m₃
  done ops m₄

unfoldable pub send_string :
    {Buf : Type 0} → BufferOps Buf → Bytes → Message Buf → Outcome (Message Buf)
unfolding send_page
send_string ops page m = send_page ops 200 (codes "OK") page m

-- A path that starts with a slash, by what follows it.
unfoldable pub named : Bytes → HelloWorld
named [] = page_not_found
named (c ∷ name) = if c == b'/' then hello_name name else page_not_found

unfoldable pub page_of : Bytes → HelloWorld
unfolding named
page_of path =
    if bytes_eq path (codes "/")
    then hello
    else if bytes_eq path (codes "/num")
    then get_num
    else named path

-- The context and the clock of a scope.
pub record Scope (C Time : Type 0) : Type 0 where
  pub context : C
  pub now : Time

module _ {C Time Buf : Type 0} (counter : Counter C) (deadline : Time → Time)
    (ops : BufferOps Buf) where
  unfoldable pub headers_received :
      {Addr : Type 0}
      → Head Addr
      → Message Buf
      → Scope C Time
      → Outcome (Option (HelloWorld × RecvMode × Time) × Message Buf × Scope C Time)
  headers_received request m scope = do
    c ← counter.increment scope.context
    ret (
      some (page_of request.path, buffered 1024, deadline scope.now),
      m,
      record scope { context = c },
    )

  -- The match on the page.
  unfoldable pub send_answer : HelloWorld → Message Buf → C → Outcome (Message Buf)
  unfolding send_string
  send_answer hello m c = send_string ops (codes "Hello World!") m
  send_answer get_num m c =
      send_string ops
        (codes "This host has been visited " ++ (to_string (counter.get c) ++ codes " times")) m
  send_answer (hello_name name) m c = send_string ops (codes "Hello " ++ (name ++ codes "!")) m
  send_answer page_not_found m c =
      send_page ops 404 (codes "Not Found") (codes "404 - Page not found") m

  unfoldable pub request_received :
      HelloWorld
      → Bytes
      → Message Buf
      → Scope C Time
      → Outcome (Option HelloWorld × Message Buf × Scope C Time)
  unfolding send_answer
  request_received page received m scope = do
    m' ← send_answer page m scope.context
    ret (none, m', scope)

-- `HelloWorld` as the handler, on the buffer, the parsers and the clock of an environment, with the
-- default methods of the trait. The methods that are `unreachable!()` and `unimplemented!()` panic.
abbrev pub hello_server : (e : Env) → (ℕ → e.Duration) → {C : Type 0} → Counter C → Env
hello_server e seconds {C} counter = record {
  Buf = e.Buf;
  Machine = HelloWorld;
  Seed = Unit;
  Scope = Scope C e.Time;
  Time = e.Time;
  Duration = e.Duration;
  Addr = e.Addr;
  ParseError = e.ParseError;
  ops = e.ops;
  now = λ scope. scope.now;
  add_time = e.add_time;
  parse_request = e.parse_request;
  parse_chunk_size = e.parse_chunk_size;
  headers_received = λ seed request m scope.
      headers_received counter (λ t. e.add_time t (seconds 10)) e.ops request m scope;
  request_received = λ page received m scope.
      request_received counter (λ t. e.add_time t (seconds 10)) e.ops page received m scope;
  bad_request = λ page m scope. ret (m, scope);
  request_chunk = λ page piece m scope. panic;
  request_end = λ page m scope. panic;
  timeout = λ page m scope. panic;
  wakeup = λ page m scope. panic;
  emit_error_page =
      λ x m seed scope. (do m' ← emit_error_page e.ops (http_status x) m; ret (m', scope));
  idle_timeout = λ seed scope. (seconds 120, scope);
  header_byte_timeout = λ seed scope. (seconds 45, scope);
  send_response_timeout = λ seed scope. (seconds 3600, scope);
}
