-- ===== src/Server/Scan.antt =====
-- server/parser.rs: `scan_raw_request`, the length of a request's body and what else its headers
-- say of the connection.
pub mod Framing
pub mod Length
pub mod Refusal
pub mod Written
use rotor_http.Prelude.{
  ℕ, Bool, true, false, ◌&&◌, ◌||◌, List, [], ◌∷◌, Bytes, codes, ◌==◌, if◌then◌else◌, Option, none,
  some, Outcome, ret, Result, ok, err, ◌>>=◌, unwrap,
}
use rotor_http.Std.Ascii.{bytes_eq, split}
use rotor_http.Std.Radix.{parse_u64}
use rotor_http.Std.Utf8.{is_utf8}
use rotor_http.Headers.{
  is_transfer_encoding, is_content_length, is_connection, is_expect, is_close, is_chunked,
  is_continue,
}
use rotor_http.Server.Body.{BodyKind, fixed, chunked}
use rotor_http.Server.Error.{RequestError, duplicate_content_length, bad_utf8, bad_content_length}

-- `httparse::Header` and `httparse::Request`, whose fields are `None` until they are parsed.
pub record Header : Type 0 where
  pub name : Bytes
  pub value : Bytes

pub record RawRequest : Type 0 where
  pub method : Option Bytes
  pub path : Option Bytes
  pub version : Option ℕ
  pub headers : List Header

-- The variables of the loop.
pub record Scan : Type 0 where
  pub has_content_length : Bool
  pub close : Bool
  pub expect_continue : Bool
  pub body : BodyKind

abbrev pub is_chunked_body : BodyKind → Bool
is_chunked_body chunked = true
is_chunked_body _ = false

-- `iter.any(is_close)`
unfoldable pub any_close : List Bytes → Bool
any_close [] = false
any_close (p ∷ ps) = is_close p || any_close ps

-- `if let Some(enc) = iter.last() { if is_chunked(enc) … }`
unfoldable pub last_is_chunked : List Bytes → Bool
last_is_chunked [] = false
last_is_chunked (p ∷ []) = is_chunked p
last_is_chunked (p ∷ q ∷ ps) = last_is_chunked (q ∷ ps)

abbrev pub comma : ℕ
comma = b','

unfoldable pub scan_transfer_encoding : Bytes → Scan → Scan
scan_transfer_encoding value s =
    if last_is_chunked (split comma value)
    then record s { close = s.has_content_length || s.close; body = chunked }
    else s

module _ {E : Type 0} where
  -- `from_utf8` and `parse` of a length, with their errors.
  unfoldable pub declared_length : Bytes → Result ℕ (RequestError E)
  declared_length value =
      if is_utf8 value
      then elim (parse_u64 value) [ ok n ↦ ok n | err e ↦ err (bad_content_length e) ]
      else err bad_utf8

  -- `body = Fixed(len)`, behind the two `try!`.
  unfoldable pub set_length : Scan → Result ℕ (RequestError E) → Result Scan (RequestError E)
  set_length s (ok n) = ok (record s { has_content_length = true; body = fixed n })
  set_length s (err e) = err e

  unfoldable pub scan_content_length : Bytes → Scan → Result Scan (RequestError E)
  scan_content_length value s =
      if s.has_content_length
      then err duplicate_content_length
      else if is_chunked_body s.body
      then ok (record s { has_content_length = true; close = true })
      else set_length s (declared_length value)

  -- One round of the loop.
  unfoldable pub scan_header : Header → Scan → Result Scan (RequestError E)
  scan_header h s =
      if is_transfer_encoding h.name
      then ok (scan_transfer_encoding h.value s)
      else if is_content_length h.name
      then scan_content_length h.value s
      else if is_connection h.name
      then ok (if any_close (split comma h.value) then record s { close = true } else s)
      else if is_expect h.name
      then ok (if is_continue h.value then record s { expect_continue = true } else s)
      else ok s

  unfoldable pub scan_headers : List Header → Scan → Result Scan (RequestError E)
  scan_headers [] s = ok s
  scan_headers (h ∷ hs) s = elim (scan_header h s) [ ok s' ↦ scan_headers hs s' | err e ↦ err e ]

  -- The `Ok` behind the loop.
  unfoldable pub scanned :
      Bool → Result Scan (RequestError E) → Result (BodyKind × Bool × Bool × Bool) (RequestError E)
  scanned is_head (ok s) = ok (s.body, is_head, s.expect_continue, s.close)
  scanned is_head (err e) = err e

  -- The body, whether the method is HEAD, whether 100 Continue is expected, and whether the
  -- connection closes.
  unfoldable pub scan_raw_request :
      RawRequest → Outcome (Result (BodyKind × Bool × Bool × Bool) (RequestError E))
  scan_raw_request raw = do
    method ← unwrap raw.method
    version ← unwrap raw.version
    let is_head = bytes_eq method (codes "HEAD")
    let start : Scan = record {
      has_content_length = false;
      close = version == 0;
      expect_continue = false;
      body = fixed 0;
    }
    ret (scanned is_head (scan_headers raw.headers start))
