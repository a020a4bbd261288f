-- ===== src/Client/Scan.antt =====
-- client/parser.rs, `scan_headers`: the length of a response's body.
pub mod Agreement
use rotor_http.Prelude.{
  ℕ, Bool, true, false, ◌&&◌, ◌||◌, List, [], ◌∷◌, Bytes, ltb, ◌==◌, if◌then◌else◌, Result, ok, err,
}
use rotor_http.Std.Ascii.{split}
use rotor_http.Std.Radix.{parse_u64}
use rotor_http.Std.Utf8.{is_utf8}
use rotor_http.Headers.{is_transfer_encoding, is_content_length, is_connection}
use rotor_http.Client.Head.{BodyKind, fixed, chunked, eof}
use rotor_http.Server.Scan.{Header, any_close, last_is_chunked, comma}

-- The variables of the second loop.
pub record Loop : Type 0 where
  pub has_content_length : Bool
  pub close : Bool
  pub result : BodyKind

abbrev pub is_chunked_body : BodyKind → Bool
is_chunked_body chunked = true
is_chunked_body _ = false

-- `is_head || (code > 100 && code < 200) || code == 204 || code == 304`
abbrev pub has_no_body : Bool → ℕ → Bool
has_no_body is_head code = is_head || (ltb 100 code && ltb code 200) || code == 204 || code == 304

-- The loop over a response without a body.
unfoldable pub scan_close : List Header → Bool → Bool
scan_close [] close = close
scan_close (h ∷ hs) close =
    scan_close hs (if is_connection h.name && any_close (split comma h.value) then true else close)

-- `from_utf8` and `parse`, whose errors are dropped.
unfoldable pub declared_length : Bytes → Result ℕ (Unit {0})
declared_length value =
    if is_utf8 value then elim (parse_u64 value) [ ok n ↦ ok n | err e ↦ err tt ] else err tt

unfoldable pub set_length : Loop → Result ℕ (Unit {0}) → Result Loop (Unit {0})
set_length s (ok n) = ok (record s { has_content_length = true; result = fixed n })
set_length s (err e) = err e

unfoldable pub scan_content_length : Bytes → Loop → Result Loop (Unit {0})
scan_content_length value s =
    if s.has_content_length
    then err tt
    else if is_chunked_body s.result
    then ok (record s { has_content_length = true; close = true })
    else set_length s (declared_length value)

-- One round of the loop.
unfoldable pub scan_header : Header → Loop → Result Loop (Unit {0})
scan_header h s =
    if is_transfer_encoding h.name
    then ok (
        if last_is_chunked (split comma h.value)
        then record s { close = s.has_content_length || s.close; result = chunked }
        else s)
    else if is_content_length h.name
    then scan_content_length h.value s
    else if is_connection h.name
    then ok (if any_close (split comma h.value) then record s { close = true } else s)
    else ok s

unfoldable pub scan_loop : List Header → Loop → Result Loop (Unit {0})
scan_loop [] s = ok s
scan_loop (h ∷ hs) s = elim (scan_header h s) [ ok s' ↦ scan_loop hs s' | err e ↦ err e ]

abbrev pub scanned : Result Loop (Unit {0}) → Result (BodyKind × Bool) (Unit {0})
scanned (ok s) = ok (s.result, s.close)
scanned (err e) = err e

-- The body, and whether the connection closes.
unfoldable pub scan_headers : Bool → ℕ → List Header → Result (BodyKind × Bool) (Unit {0})
scan_headers is_head code headers =
    if has_no_body is_head code
    then ok (fixed 0, scan_close headers false)
    else scanned
        (scan_loop headers (record { has_content_length = false; close = false; result = eof }))
