-- ===== src/Tests/Requests.antt =====
-- Requests scanned for their bodies.
use native.Mathlib.Decide.{dec_lt}
use rotor_http.Prelude.{
  ℕ, ◌≡◌, refl, Bool, true, false, not, ◌&&◌, ◌||◌, List, [], ◌∷◌, codes, some, ret, ok, err, arith,
}
use rotor_http.Headers.{
  is_transfer_encoding, is_content_length, is_chunked, is_token, skip_to_first, take_letters,
  all_blank, is_blank,
}
use rotor_http.Std.Ascii.{bytes_eq, split, eq_ignore_ascii_case, to_ascii_lowercase}
use rotor_http.Std.Radix.{to_string, to_radix, emit, digit, lt_wf, parse_u64, read_u64, to_digit}
use rotor_http.Std.Utf8.{is_utf8}
use rotor_http.Server.Body.{BodyKind, fixed, chunked}
use rotor_http.Server.Error.{RequestError}
use rotor_http.Server.Scan.{
  Header, RawRequest, last_is_chunked, declared_length, set_length, scan_transfer_encoding,
  scan_content_length, scan_header, scan_headers, scanned, scan_raw_request,
}
use rotor_http.Server.Scan.Framing.{
  lengths, any_chunked, asks_close, expects, is_empty, scan_raw_request-framing,
}
use rotor_http.Server.Scan.Length.{Declares, scan_raw_request-length}
use rotor_http.Server.Scan.Written.{scan_raw_request-to_string}
use rotor_http.Server.Scan.Refusal.{Readable, scan_raw_request-duplicate, scan_raw_request-accepts}

abbrev post : List Header → RawRequest
post headers = record {
  method = some (codes "POST");
  path = some (codes "/");
  version = some 1;
  headers = headers;
}

abbrev pub length_of_3 : Header
length_of_3 = record { name = codes "content-length"; value = codes "3" }

abbrev pub gzip_chunked : Header
gzip_chunked = record { name = codes "Transfer-Encoding"; value = codes "gzip, chunked" }

abbrev pub both : List Header
both = length_of_3 ∷ gzip_chunked ∷ []

abbrev one : List Header
one = length_of_3 ∷ []

abbrev twice : List Header
twice = length_of_3 ∷ gzip_chunked ∷ length_of_3 ∷ []

scan_both : scan_raw_request {E = ℕ} (post both) ≡ ret (ok (chunked, false, false, true))
unfolding scan_raw_request scanned scan_headers scan_header scan_content_length set_length
    declared_length scan_transfer_encoding last_is_chunked is_transfer_encoding is_content_length
    is_chunked is_token skip_to_first take_letters all_blank is_blank eq_ignore_ascii_case
    to_ascii_lowercase bytes_eq split parse_u64 read_u64 to_digit is_utf8
scan_both = refl

scan_one : scan_raw_request {E = ℕ} (post one) ≡ ret (ok (fixed 3, false, false, false))
unfolding scan_raw_request scanned scan_headers scan_header scan_content_length set_length
    declared_length is_transfer_encoding is_content_length eq_ignore_ascii_case to_ascii_lowercase
    bytes_eq parse_u64 read_u64 to_digit is_utf8
scan_one = refl

lengths-one : lengths one ≡ codes "3" ∷ []
unfolding lengths is_content_length eq_ignore_ascii_case to_ascii_lowercase
lengths-one = refl

lengths-twice : lengths twice ≡ codes "3" ∷ codes "3" ∷ []
unfolding lengths is_content_length eq_ignore_ascii_case to_ascii_lowercase
lengths-twice = refl

no_chunks : any_chunked one ≡ false
unfolding any_chunked is_transfer_encoding eq_ignore_ascii_case to_ascii_lowercase
no_chunks = refl

reads_3 : Readable (codes "3")
unfolding parse_u64 read_u64 to_digit is_utf8
reads_3 = (3, record { text = refl; digits = refl })

scan_raw_request-framing_example :
    (true ≡ any_chunked both)
    × (false ≡ expects both)
    × (true ≡ (false || (asks_close both || (any_chunked both && not (is_empty (lengths both))))))
    × (false ≡ bytes_eq (codes "POST") (codes "HEAD"))
scan_raw_request-framing_example =
    scan_raw_request-framing {E = ℕ} (post both) (codes "POST") 1 chunked false false true refl refl
      scan_both

scan_raw_request-length_example : Declares false (fixed 0) (lengths one) (fixed 3)
scan_raw_request-length_example =
    scan_raw_request-length {E = ℕ} (post one) (codes "POST") 1 (fixed 3) false false false refl
      refl no_chunks scan_one

scan_raw_request-duplicate_example :
    (e : RequestError ℕ) × (scan_raw_request (post twice) ≡ ret (err e))
scan_raw_request-duplicate_example =
    scan_raw_request-duplicate {E = ℕ} (post twice) (codes "POST") 1 refl refl
      (rw lengths-twice (omega arith))

scan_raw_request-accepts_example :
    (b : BodyKind) × (expect : Bool) × (close : Bool) × (scan_raw_request {E = ℕ} (post one)
      ≡ ret (ok (b, bytes_eq (codes "POST") (codes "HEAD"), expect, close)))
scan_raw_request-accepts_example =
    scan_raw_request-accepts {E = ℕ} (post one) (codes "POST") 1 refl refl
      (rw lengths-one (omega arith)) (rw lengths-one (reads_3, tt))

three : to_string 3 ≡ codes "3"
unfolding to_radix emit digit lt_wf dec_lt
three = refl

scan_raw_request-to_string_example :
    (is_head : Bool) × (expect : Bool) × (close : Bool) × (scan_raw_request {E = ℕ} (post one)
      ≡ ret (ok (fixed 3, is_head, expect, close)))
scan_raw_request-to_string_example =
    scan_raw_request-to_string {E = ℕ} (post one) (codes "POST") 1 3 refl refl no_chunks
      (rw three lengths-one) (omega arith)
