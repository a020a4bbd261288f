-- ===== src/Tests/Fetching.antt =====
-- A page fetched by the example client, with a transport that finds the end of a head and a parser
-- that knows one.
use native.Mathlib.Decide.{dec_lt}
use rotor_http.Prelude.{
  ℕ, ◌+◌, ◌≡◌, refl, false, if◌then◌else◌, [], ◌∷◌, ◌++◌, Bytes, codes, crlf, drop, drop_prefix,
  length, Option, some, none, ret, ◌>>=◌,
}
use rotor_http.Buffer.{byte_buffer_laws}
use rotor_http.Client.Parser.{head_end, Intent}
use rotor_http.Client.Parser.Events.{create}
use rotor_http.Client.Protocol.{Env, Parsed}
use rotor_http.Client.Scan.{
  scan_headers, scan_loop, scan_header, scan_content_length, set_length, declared_length,
}
use rotor_http.Client.Session.{Incoming, Readable, run}
use rotor_http.Fetch.{UrlOps, Scope, fetching, text, lossy, header_lines, lacks_line_end}
use rotor_http.Fetch.Page.{awaiting, stopped, page_lines, fetch-responds}
use rotor_http.Headers.{is_content_length, is_transfer_encoding}
use rotor_http.Std.Ascii.{bytes_eq, eq_ignore_ascii_case, to_ascii_lowercase}
use rotor_http.Std.Radix.{parse_u64, read_u64, to_digit, to_radix, emit, digit, lt_wf}
use rotor_http.Std.Utf8.{is_utf8}
use rotor_http.Stream.{Delivery, Expectation}
use rotor_http.Tests.Bodies.{answer, find_line-crlf, within, later, leb-true}
use rotor_http.Tests.Clients.{client}
use rotor_http.Tests.Greetings.{starts_with}

abbrev find_head : Bytes → Option ℕ
find_head [] = none
find_head (c ∷ s) = if starts_with head_end (c ∷ s) then some 0 else later (find_head s)

abbrev told : Expectation → Bytes → Option ℕ
told (Expectation.delimiter off (a ∷ b ∷ c ∷ d) limit) s =
    within (off + 2) limit (find_head (drop off s))
told exp s = answer exp s

abbrev pub finding : Delivery
finding = record {
  deliver = told;
  deliver_bytes = λ n c h. rw (leb-true n (length c) h);
  deliver_line = λ before line rest off limit at_end no_cr short. rw (
    drop_prefix off before (line ++ (crlf ++ rest)) at_end,
    find_line-crlf line rest no_cr,
    leb-true (off + length line + 2) limit short,
  );
}

abbrev page : Incoming
page = record {
  text = codes "HTTP/1.1 200 OK\r\nContent-Length: 5\r\n\r\n";
  raw = record {
    version = some 1;
    code = some 200;
    reason = some (codes "OK");
    headers = record { name = codes "Content-Length"; value = codes "5" } ∷ [];
  };
  version = 1;
  code = 200;
  reason = codes "OK";
  body = codes "hello";
  closes = false;
}

abbrev knowing : Env
knowing = record client {
  parse_response = λ s. if bytes_eq s page.text then Parsed.complete 38 page.raw else Parsed.failed;
}

-- A URL that is its path, on one host.
abbrev pub on_host : UrlOps Bytes
on_host = record {
  serialize_path = λ url. some url;
  serialize_host = λ url. some (codes "example.com");
}

abbrev at_start : Scope ℕ
at_start = record { printed = []; stops = false; now = 3 }

page-Readable : Readable (fetching knowing (λ n. n) on_host) finding page
unfolding scan_headers scan_loop scan_header scan_content_length set_length declared_length
    is_content_length is_transfer_encoding bytes_eq eq_ignore_ascii_case to_ascii_lowercase
    parse_u64 read_u64 to_digit is_utf8
page-Readable = record {
  end = 34;
  size = refl;
  ends = λ rest. refl;
  reads = refl;
  has_version = refl;
  has_code = refl;
  has_reason = refl;
  scans = refl;
}

fetch-responds_example :
    (out' : Bytes) × (inp' : Bytes) × ((do
      (i, scope') ← create (fetching knowing (λ n. n) on_host) (codes "/") at_start
      run
          (fetching knowing (λ n. n) on_host)
          finding
          1
          (i, record { input = []; output = [] }, scope'))
      ≡ ret (
          awaiting knowing byte_buffer_laws
            (λ n. n)
            on_host
            finding
            (codes "/")
            123
            []
            out'
            at_start))
    × (out' ≡ codes "GET / HTTP/1.1\r\nHost: example.com\r\n\r\n")
    × (run (fetching knowing (λ n. n) on_host) finding 3 (
          awaiting knowing byte_buffer_laws
            (λ n. n)
            on_host
            finding
            (codes "/")
            123
            (page.text ++ codes "hello")
            []
            at_start)
        ≡ ret (
          Intent.done,
          record { input = inp'; output = [] },
          stopped knowing byte_buffer_laws (λ n. n) on_host finding (page_lines page) at_start,
        ))
    × (inp' ≡ [])
fetch-responds_example =
    fetch-responds knowing byte_buffer_laws (λ n. n) on_host finding (codes "/") (codes "/")
      (codes "example.com") [] [] at_start page 123 (page.text ++ codes "hello") [] at_start [] refl
      refl page-Readable refl

-- What is printed.
page_lines-ok :
    page_lines page
    ≡ text (codes "----- Headers -----\n")
      ∷ text (codes "Status: 200 OK\n")
      ∷ text (codes "Content-Length: ")
      ∷ lossy (codes "5")
      ∷ text (codes "\n")
      ∷ text (codes "----- Response -----\n")
      ∷ text (codes "hello")
      ∷ text (codes "\n")
      ∷ []
unfolding header_lines lacks_line_end to_radix emit digit lt_wf dec_lt
page_lines-ok = refl
