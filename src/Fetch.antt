-- ===== src/Fetch.antt =====
-- examples/client.rs: a client that fetches one page and prints it.
pub mod Sending
pub mod Page
use rotor_http.Prelude.{
  ℕ, ◌==◌, ◌||◌, Bool, true, false, not, if◌then◌else◌, List, [], ◌∷◌, ◌++◌, Bytes, codes, Option,
  none, some, Outcome, ret, panic, ◌>>=◌, ◌>>◌, unwrap, unwrap_ok,
}
use rotor_http.Buffer.{BufferOps}
use rotor_http.Client.Head.{Head}
use rotor_http.Client.Protocol.{Env, Connection, Task}
use rotor_http.Client.Request.{Request, start, add_header, done_headers, done}
use rotor_http.RecvMode.{RecvMode, buffered}
use rotor_http.Server.Scan.{Header}
use rotor_http.Std.Radix.{to_string}
use rotor_http.Version.{http11}

-- `url::Url`, as far as the program uses it.
pub record UrlOps (Url : Type 0) : Type 0 where
  pub serialize_path : Url → Option Bytes
  pub serialize_host : Url → Option Bytes

pub record Cli (Url : Type 0) : Type 0 where
  pub seed : Option Url

pub record Req (Url : Type 0) : Type 0 where
  pub url : Url

-- What is printed: text, and bytes as `from_utf8_lossy` shows them.
pub data Printed : Type 0 where
  text lossy : Bytes → Printed

-- The output of the program, whether the loop is asked to stop, and the clock of a scope.
pub record Scope (Time : Type 0) : Type 0 where
  pub printed : List Printed
  pub stops : Bool
  pub now : Time

unfoldable pub print : {Time : Type 0} → List Printed → Scope Time → Scope Time
print more scope = record scope { printed = scope.printed ++ more }

abbrev pub header_line : Header → List Printed
header_line h = text (h.name ++ codes ": ") ∷ lossy h.value ∷ text (codes "\n") ∷ []

-- The loop over the headers.
unfoldable pub header_lines : List Header → List Printed
header_lines [] = []
header_lines (h ∷ hs) = header_line h ++ header_lines hs

abbrev pub head_lines : Head → List Printed
head_lines head =
    text (codes "----- Headers -----\n")
    ∷ text (codes "Status: " ++ (to_string head.code ++ (32 ∷ (head.reason ++ codes "\n"))))
    ∷ header_lines head.headers

-- `data.last() != Some(&b'\n')`
unfoldable pub lacks_line_end : Bytes → Bool
lacks_line_end [] = true
lacks_line_end (c ∷ []) = not (c == 10)
lacks_line_end (c ∷ d ∷ s) = lacks_line_end (d ∷ s)

abbrev pub body_lines : Bytes → List Printed
body_lines received =
    text (codes "----- Response -----\n")
    ∷ text received
    ∷ (if lacks_line_end received then text (codes "\n") ∷ [] else [])

module _ {Url Time : Type 0} where
  unfoldable pub connection_idle :
      Cli Url → Connection → Scope Time → Outcome (Task (Cli Url) (Req Url) Time × Scope Time)
  connection_idle cli connection scope = elim cli.seed [
    | some url ↦ ret (Task.request (record { seed = none }) (record { url = url }), scope)
    | none ↦ ret (Task.close, record scope { stops = true })
  ]

  unfoldable pub headers_received :
      {Buf : Type 0}
      → (Time → Time)
      → Req Url
      → Head
      → Request Buf
      → Scope Time
      → Outcome (Option (Req Url × RecvMode × Time) × Request Buf × Scope Time)
  unfolding print
  headers_received deadline m head req scope =
      ret (some (m, buffered 1048576, deadline scope.now), req, print (head_lines head) scope)

  unfoldable pub response_received :
      {Buf : Type 0}
      → Req Url
      → Bytes
      → Request Buf
      → Scope Time
      → Outcome (Request Buf × Scope Time)
  unfolding print
  response_received m received req scope = ret (req, print (body_lines received) scope)

  unfoldable pub prepare_request :
      {Buf : Type 0}
      → UrlOps Url
      → BufferOps Buf
      → Req Url
      → Request Buf
      → Scope Time
      → Outcome (Option (Req Url) × Request Buf × Scope Time)
  prepare_request url_ops ops m req scope = do
    path ← unwrap (url_ops.serialize_path m.url)
    req₁ ← start ops (codes "GET") path http11 req
    host ← unwrap (url_ops.serialize_host m.url)
    (r₂, req₂) ← add_header ops (codes "Host") host req₁
    unwrap_ok r₂
    (r₃, req₃) ← done_headers ops req₂
    _body ← unwrap_ok r₃
    req₄ ← done ops req₃
    ret (some m, req₄, scope)

-- `Cli` and `Req` as the handlers, on the buffer, the parsers and the clock of an environment, with the
-- default timeouts of the traits. A message on the standard error and `exit(1)`, `unimplemented!()` and `unreachable!()` are the outcome `panic`.
abbrev pub fetching : (e : Env) → (ℕ → e.Duration) → {Url : Type 0} → UrlOps Url → Env
fetching e seconds {Url} url_ops = record {
  Buf = e.Buf;
  Cli = Cli Url;
  Req = Req Url;
  Seed = Url;
  Scope = Scope e.Time;
  Time = e.Time;
  Duration = e.Duration;
  Io = e.Io;
  ops = e.ops;
  now = λ scope. scope.now;
  add_time = e.add_time;
  min_time = e.min_time;
  parse_response = e.parse_response;
  parse_chunk_size = e.parse_chunk_size;
  create = λ url scope. ret (record { seed = some url }, scope);
  connection_idle = λ cli c scope. connection_idle cli c scope;
  connection_error = λ cli x scope. panic;
  client_wakeup = λ cli c scope. panic;
  client_timeout = λ cli c scope. panic;
  connect_timeout = λ cli scope. (seconds 15, scope);
  idle_timeout = λ cli scope. (seconds 120, scope);
  prepare_request = λ m req scope. prepare_request url_ops e.ops m req scope;
  headers_received =
      λ m head req scope. headers_received (λ t. e.add_time t (seconds 1000)) m head req scope;
  response_received = λ m piece req scope. response_received m piece req scope;
  bad_response = λ m x scope. panic;
  response_chunk = λ m piece req scope. panic;
  response_end = λ m req scope. panic;
  byte_timeout = λ m scope. (seconds 120, scope);
}
