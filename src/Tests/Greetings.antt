-- ===== src/Tests/Greetings.antt =====
-- Two requests of a connection to the greeting server, read by a parser that knows them.
use native.Mathlib.Decide.{dec_lt}
use rotor_http.Prelude.{
  ℕ, ◌≡◌, refl, true, false, Bool, ◌&&◌, ◌==◌, if◌then◌else◌, [], ◌∷◌, ◌++◌, Bytes, codes, length,
  some, none, ret, arith,
}
use rotor_http.Buffer.{byte_buffer_laws}
use rotor_http.HelloWorld.{page_of}
use rotor_http.HelloWorld.Pages.{response_of}
use rotor_http.HelloWorld.Visits.{server, counted, answers_of, serve-answers}
use rotor_http.Server.Parser.{idle, Intent}
use rotor_http.Server.Protocol.{Env, Parsed}
use rotor_http.Server.Scan.{scan_raw_request, scan_headers, scanned}
use rotor_http.Server.Session.{Incoming, Readable, serve}
use rotor_http.Std.Ascii.{bytes_eq}
use rotor_http.Std.Radix.{to_radix, emit, digit, lt_wf}
use rotor_http.Stream.{bytes}
use rotor_http.Version
use rotor_http.Tests.Bodies.{logging, simple_delivery}

abbrev pub starts_with : Bytes → Bytes → Bool
starts_with [] s = true
starts_with (c ∷ t) [] = false
starts_with (c ∷ t) (x ∷ s) = c == x && starts_with t s

abbrev get : Bytes → Bytes → Incoming
get text path = record {
  text = text;
  raw = record { method = some (codes "GET"); path = some path; version = some 1; headers = [] };
  method = codes "GET";
  path = path;
  is_head = false;
}

abbrev pub root : Incoming
root = get (codes "GET / HTTP/1.1\r\n\r\n") (codes "/")

abbrev pub num : Incoming
num = get (codes "GET /num HTTP/1.1\r\n\r\n") (codes "/num")

abbrev pub knowing : Env
knowing = record logging {
  parse_request = λ s.
      if starts_with root.text s
      then Parsed.complete (length root.text) root.raw
      else if starts_with num.text s
      then Parsed.complete (length num.text) num.raw
      else Parsed.partial;
}

abbrev greeting : Env
greeting = server knowing (λ n. n)

root-Readable : Readable greeting root
unfolding scan_raw_request scan_headers scanned bytes_eq
root-Readable = record {
  not_empty = omega arith;
  reads = λ rest. refl;
  has_version = refl;
  has_method = refl;
  has_path = refl;
  scans = refl;
}

num-Readable : Readable greeting num
unfolding scan_raw_request scan_headers scanned bytes_eq
num-Readable = record {
  not_empty = omega arith;
  reads = λ rest. refl;
  has_version = refl;
  has_method = refl;
  has_path = refl;
  scans = refl;
}

serve-answers_example :
    (inp' : Bytes) × (out' : Bytes) × (deadline' : ℕ) × (serve greeting simple_delivery 4 (
      Intent.of idle tt (bytes 1) 7,
      record { input = root.text ++ num.text; output = []; peer = none },
      counted 0 41,
    )
      ≡ ret (
        Intent.of idle tt (bytes 1) deadline',
        record { input = inp'; output = out'; peer = none },
        counted 0 43,
      ))
    × (inp' ≡ [])
    × (out' ≡ answers_of 41 (root ∷ num ∷ []))
serve-answers_example =
    serve-answers knowing byte_buffer_laws (λ n. n) none simple_delivery (root ∷ num ∷ [])
      (root.text ++ num.text) [] 0 7 41 (root-Readable, (num-Readable, tt)) (omega arith) refl

-- What is sent: a greeting, and the second visit's number.
answers_of-two :
    answers_of 41 (root ∷ num ∷ [])
    ≡ response_of 200 (codes "OK") false (codes "Hello World!")
      ++ response_of 200 (codes "OK") false (codes "This host has been visited 43 times")
unfolding page_of bytes_eq to_radix emit digit lt_wf dec_lt Version.fmt
answers_of-two = refl
