-- ===== src/Exchange/Visit/Answered.antt =====
-- An answer of examples/hello_world_server.rs as a client reads it.
use rotor_http.Prelude.{
  ℕ, ◌+◌, ◌^◌, ◌<◌, ◌≡◌, refl, false, [], ◌∷◌, ◌++◌, append_assoc, Bytes, codes, crlf, length, some,
  ok, err, Result, Bool, ap,
}
use rotor_http.Client.Head.{BodyKind, fixed, eof}
use rotor_http.Client.Parser.{head_end, max_headers_size}
use rotor_http.Client.Protocol.{Env, RawResponse, Parsed}
use rotor_http.Client.Scan.{
  has_no_body, scan_headers, scan_loop, scan_header, scan_content_length, scanned, set_length,
  declared_length,
}
use rotor_http.Client.Session.{Incoming, Readable}
use rotor_http.Headers.{is_content_length, is_transfer_encoding}
use rotor_http.HelloWorld.{HelloWorld, hello, get_num, hello_name, page_not_found}
use rotor_http.HelloWorld.Pages.{answer_of, page_text}
use rotor_http.Server.Scan.Written.{Ascii-to_string}
use rotor_http.Std.Ascii.{bytes_eq, eq_ignore_ascii_case, to_ascii_lowercase}
use rotor_http.Std.Radix.RoundTrip.{parse_u64-to_string}
use rotor_http.Std.Radix.{to_string}
use rotor_http.Std.Utf8.{is_utf8_ascii}
use rotor_http.Stream.{Delivery, Expectation}
use rotor_http.Version

abbrev pub code_of : HelloWorld → ℕ
code_of page_not_found = 404
code_of _ = 200

abbrev pub reason_of : HelloWorld → Bytes
reason_of page_not_found = codes "Not Found"
reason_of _ = codes "OK"

-- The head of an answer with a page of this length.
abbrev pub head_text : HelloWorld → ℕ → Bytes
head_text page size =
    Version.fmt Version.http11
    ++ (32
        ∷ (to_string (code_of page)
            ++ (32
                ∷ (reason_of page
                    ++ (crlf
                        ++ (codes "Content-Length: " ++ (to_string size ++ (crlf ++ crlf))))))))

-- What httparse makes of it.
abbrev pub raw_response : HelloWorld → ℕ → RawResponse
raw_response page size = record {
  version = some 1;
  code = some (code_of page);
  reason = some (reason_of page);
  headers = record { name = codes "Content-Length"; value = to_string size } ∷ [];
}

-- The response with a page, behind so many visits.
abbrev pub incoming : HelloWorld → ℕ → Incoming
incoming page n =
    let size = length (page_text page n) in
    record {
      text = head_text page size;
      raw = raw_response page size;
      version = 1;
      code = code_of page;
      reason = reason_of page;
      body = page_text page n;
      closes = false;
    }

pub answer_of-incoming :
    (page : HelloWorld) (n : ℕ) (rest : Bytes)
    → answer_of page false n ++ rest
      ≡ head_text page (length (page_text page n)) ++ (page_text page n ++ rest)
answer_of-incoming page_not_found n rest = simp (append_assoc)
answer_of-incoming hello n rest = simp (append_assoc)
answer_of-incoming get_num n rest = simp (append_assoc)
answer_of-incoming (hello_name name) n rest = simp (append_assoc)

declared_length-to_string : (n : ℕ) → n < 2 ^ 64 → declared_length (to_string n) ≡ ok n
unfolding declared_length
declared_length-to_string n word =
    rw (is_utf8_ascii (to_string n) (Ascii-to_string n), parse_u64-to_string n word) refl

-- The scan of one header, from the length that it declares.
scanned_length : Result ℕ (Unit {0}) → Result (BodyKind × Bool) (Unit {0})
scanned_length r =
    scanned
      (elim (set_length (record { has_content_length = false; close = false; result = eof }) r) [
        | ok s ↦ ok s
        | err e ↦ err e
      ])

scan_headers-length :
    (code n : ℕ)
    → has_no_body false code ≡ false
    → n < 2 ^ 64
    → scan_headers false code (record { name = codes "Content-Length"; value = to_string n } ∷ [])
      ≡ ok (fixed n, false)
unfolding scan_headers scan_loop scan_header scan_content_length set_length is_content_length
    is_transfer_encoding bytes_eq eq_ignore_ascii_case to_ascii_lowercase scanned_length
scan_headers-length code n bodied word =
    rw bodied (ap scanned_length (declared_length-to_string n word))

code_of-has_no_body : (page : HelloWorld) → has_no_body false (code_of page) ≡ false
code_of-has_no_body page_not_found = refl
code_of-has_no_body hello = refl
code_of-has_no_body get_num = refl
code_of-has_no_body (hello_name name) = refl

-- The transport finds the end of a head, whatever follows it, and httparse reads it.
pub record ReadsHead (parse_response : Bytes → Parsed) (d : Delivery) (page : HelloWorld) (size : ℕ)
    : Type 0 where
  pub end : ℕ
  pub ends_at : length (head_text page size) ≡ end + 4
  pub ends :
      (rest : Bytes)
      → d.deliver (Expectation.delimiter 0 head_end max_headers_size) (head_text page size ++ rest)
        ≡ some end
  pub reads :
      parse_response (head_text page size) ≡ Parsed.complete (end + 4) (raw_response page size)

pub incoming-Readable :
    (e : Env) (d : Delivery) (page : HelloWorld) (n : ℕ)
    → length (page_text page n) < 2 ^ 64
    → ReadsHead e.parse_response d page (length (page_text page n))
    → Readable e d (incoming page n)
incoming-Readable e d page n word h = record {
  end = h.end;
  size = h.ends_at;
  ends = h.ends;
  reads = h.reads;
  has_version = refl;
  has_code = refl;
  has_reason = refl;
  scans =
      scan_headers-length (code_of page) (length (page_text page n)) (code_of-has_no_body page)
        word;
}
