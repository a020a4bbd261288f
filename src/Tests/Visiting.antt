-- ===== src/Tests/Visiting.antt =====
-- The example client visits the greeting server, with parsers that know what the other one sends.
use native.Mathlib.Decide.{dec_lt}
use rotor_http.Prelude.{
  ℕ, ◌≡◌, refl, false, if◌then◌else◌, [], Bytes, codes, length, none, ret, arith, ◌>>=◌,
}
use rotor_http.Buffer.{byte_buffer_laws}
use rotor_http.Client.Parser.Events.{create}
use rotor_http.Client.Parser
use rotor_http.Client.Protocol as Asking
use rotor_http.Client.Session.{run}
use rotor_http.Exchange.Visit.Answered.{ReadsHead, raw_response, incoming}
use rotor_http.Exchange.Visit.Asked.{raw_request}
use rotor_http.Exchange.Visit.{visit-greets}
use rotor_http.Fetch.Page.{awaiting, stopped, page_lines}
use rotor_http.Fetch.Sending.{request_text}
use rotor_http.Fetch.{Scope, fetching}
use rotor_http.HelloWorld.Pages.{answer_of}
use rotor_http.HelloWorld.Visits.{server, counted}
use rotor_http.HelloWorld.{hello, page_of}
use rotor_http.Server.Parser.{Intent, idle}
use rotor_http.Server.Protocol.{Env, Parsed}
use rotor_http.Server.Session.{serve}
use rotor_http.Std.Ascii.{bytes_eq}
use rotor_http.Std.Radix.{to_radix, emit, digit, lt_wf}
use rotor_http.Stream.{bytes}
use rotor_http.Tests.Bodies.{logging, simple_delivery}
use rotor_http.Tests.Clients.{client}
use rotor_http.Tests.Fetching.{finding, on_host}
use rotor_http.Tests.Greetings.{starts_with}
use rotor_http.Version

abbrev request : Bytes
request = request_text (codes "/") (codes "example.com")

abbrev reading : Env
reading = record logging {
  parse_request = λ s.
      if starts_with request s
      then Parsed.complete (length request) (raw_request (codes "/") (codes "example.com"))
      else Parsed.partial;
}

abbrev asking : Asking.Env
asking = record client { parse_response = λ s. Asking.Parsed.complete 39 (raw_response hello 12) }

abbrev at_start : Scope ℕ
at_start = record { printed = []; stops = false; now = 3 }

hello-ReadsHead : ReadsHead asking.parse_response finding hello 12
unfolding to_radix emit digit lt_wf dec_lt Version.fmt
hello-ReadsHead = record { end = 35; ends_at = refl; ends = λ rest. refl; reads = refl }

visit-greets_example :
    (asked : Bytes) × (in_s' : Bytes) × (answer : Bytes) × (deadline₂ : ℕ) × (in_c' : Bytes) × ((do
      (i, scope') ← create (fetching asking (λ n. n) on_host) (codes "/") at_start
      run
          (fetching asking (λ n. n) on_host)
          finding
          1
          (i, record { input = []; output = [] }, scope'))
      ≡ ret (
          awaiting asking byte_buffer_laws
            (λ n. n)
            on_host
            finding
            (codes "/")
            123
            []
            asked
            at_start))
    × (asked ≡ request)
    × (serve (server reading (λ n. n)) simple_delivery 2 (
      Intent.of idle tt (bytes 1) 7,
      record { input = request; output = []; peer = none },
      counted 0 41,
    )
        ≡ ret (
          Intent.of idle tt (bytes 1) deadline₂,
          record { input = in_s'; output = answer; peer = none },
          counted 0 42,
        ))
    × (in_s' ≡ [])
    × (answer ≡ answer_of hello false 42)
    × (run (fetching asking (λ n. n) on_host) finding 3 (
          awaiting asking byte_buffer_laws
            (λ n. n)
            on_host
            finding
            (codes "/")
            123
            (answer_of hello false 42)
            []
            at_start)
        ≡ ret (
          Parser.Intent.done,
          record { input = in_c'; output = [] },
          stopped asking byte_buffer_laws
              (λ n. n)
              on_host
              finding
              (page_lines (incoming hello 42))
              at_start,
        ))
    × (in_c' ≡ [])
unfolding page_of bytes_eq
visit-greets_example =
    visit-greets reading asking byte_buffer_laws byte_buffer_laws simple_delivery finding (λ n. n)
      (λ n. n) on_host (codes "/") (codes "/") (codes "example.com") 41 none 0 7 request [] [] []
      (answer_of hello false 42) [] 123 at_start at_start refl refl (λ rest. refl) hello-ReadsHead
      (omega arith) (omega arith) refl refl refl refl
