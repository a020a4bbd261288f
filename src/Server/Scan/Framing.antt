-- ===== src/Server/Scan/Framing.antt =====
-- What a successful scan says: the headers taken as a whole.
use rotor_http.Prelude.{
  ℕ, ◌≡◌, refl, Bool, true, false, not, ◌&&◌, ◌||◌, List, [], ◌∷◌, arith, Bytes, codes, ◌==◌,
  if◌then◌else◌, some, ret, ret_injective, Result, ok, err,
}
use rotor_http.Std.Ascii.{
  split, bytes_eq, lower, to_ascii_lowercase, eq_ignore_ascii_case, eq_ignore_ascii_case_iff,
  bytes_eq_iff,
}
use rotor_http.Headers.{
  is_transfer_encoding, is_content_length, is_connection, is_expect, is_continue,
}
use rotor_http.Server.Body.{BodyKind, fixed}
use rotor_http.Server.Error.{RequestError}
use rotor_http.Server.Scan.{
  Header, RawRequest, Scan, is_chunked_body, any_close, last_is_chunked, comma,
  scan_transfer_encoding, scan_content_length, set_length, scan_header, scan_headers, scanned,
  scan_raw_request,
}

-- The values of the Content-Length headers, in order.
unfoldable pub lengths : List Header → List Bytes
lengths [] = []
lengths (h ∷ hs) = if is_content_length h.name then h.value ∷ lengths hs else lengths hs

-- A Transfer-Encoding header whose last coding is chunked.
unfoldable pub any_chunked : List Header → Bool
any_chunked [] = false
any_chunked (h ∷ hs) =
    (is_transfer_encoding h.name && last_is_chunked (split comma h.value)) || any_chunked hs

-- A Connection header with the option `close`.
unfoldable pub asks_close : List Header → Bool
asks_close [] = false
asks_close (h ∷ hs) = (is_connection h.name && any_close (split comma h.value)) || asks_close hs

-- An Expect header with the value `100-continue`.
unfoldable pub expects : List Header → Bool
expects [] = false
expects (h ∷ hs) = (is_expect h.name && is_continue h.value) || expects hs

abbrev pub is_empty {ℓ} : {A : Type ℓ} → List A → Bool
is_empty [] = true
is_empty (x ∷ xs) = false

pub disjoint :
    (name a b : Bytes)
    → bytes_eq (lower a) (lower b) ≡ false
    → (eq_ignore_ascii_case name a && eq_ignore_ascii_case name b) ≡ false
disjoint name a b ne = ground (
  arith,
  eq_ignore_ascii_case_iff name a,
  eq_ignore_ascii_case_iff name b,
  bytes_eq_iff (lower a) (lower b),
)

-- A header has one of the four names at most.
pub record Distinct (te cl cn ex : Bool) : Type 0 where
  pub te_cl : (te && cl) ≡ false
  te_cn : (te && cn) ≡ false
  te_ex : (te && ex) ≡ false
  cl_cn : (cl && cn) ≡ false
  cl_ex : (cl && ex) ≡ false
  cn_ex : (cn && ex) ≡ false

pub names-Distinct :
    (name : Bytes)
    → Distinct
        (is_transfer_encoding name)
        (is_content_length name)
        (is_connection name)
        (is_expect name)
unfolding is_transfer_encoding is_content_length is_connection is_expect to_ascii_lowercase bytes_eq
names-Distinct name = record {
  te_cl = disjoint name (codes "Transfer-Encoding") (codes "Content-Length") refl;
  te_cn = disjoint name (codes "Transfer-Encoding") (codes "Connection") refl;
  te_ex = disjoint name (codes "Transfer-Encoding") (codes "Expect") refl;
  cl_cn = disjoint name (codes "Content-Length") (codes "Connection") refl;
  cl_ex = disjoint name (codes "Content-Length") (codes "Expect") refl;
  cn_ex = disjoint name (codes "Connection") (codes "Expect") refl;
}

-- What one header adds.
record Adds (h : Header) (s s' : Scan) : Type 0 where
  has : s'.has_content_length ≡ (s.has_content_length || is_content_length h.name)
  chunks : is_chunked_body s'.body ≡ (
      is_chunked_body s.body
      || (is_transfer_encoding h.name && last_is_chunked (split comma h.value)))
  closing : s'.close ≡ (
      s.close
      || ((is_connection h.name && any_close (split comma h.value))
          || (is_chunked_body s'.body && s'.has_content_length)))
  expecting : s'.expect_continue ≡ (s.expect_continue || (is_expect h.name && is_continue h.value))

-- Chunked and with a length: the connection closes.
abbrev Guarded : Scan → Type 0
Guarded s = (is_chunked_body s.body && s.has_content_length) ≡ true → s.close ≡ true

scan_header-Adds :
    {E : Type 0} (h : Header) (s s' : Scan)
    → Distinct
        (is_transfer_encoding h.name)
        (is_content_length h.name)
        (is_connection h.name)
        (is_expect h.name)
    → Guarded s
    → scan_header {E = E} h s ≡ ok s'
    → Adds h s s'
unfolding scan_header scan_transfer_encoding scan_content_length set_length
scan_header-Adds h s s' d g e = ground arith

-- What a list of headers adds.
record AddsAll (hs : List Header) (s s' : Scan) : Type 0 where
  has : s'.has_content_length ≡ (s.has_content_length || not (is_empty (lengths hs)))
  chunks : is_chunked_body s'.body ≡ (is_chunked_body s.body || any_chunked hs)
  closing :
      s'.close ≡ (s.close || (asks_close hs || (is_chunked_body s'.body && s'.has_content_length)))
  expecting : s'.expect_continue ≡ (s.expect_continue || expects hs)

Adds-Guarded : (h : Header) (s s' : Scan) → Adds h s s' → Guarded s'
Adds-Guarded h s s' a e = ground arith

AddsAll-cons :
    (h : Header) (hs : List Header) (s s' s'' : Scan)
    → Adds h s s'
    → AddsAll hs s' s''
    → AddsAll (h ∷ hs) s s''
unfolding lengths any_chunked asks_close expects
AddsAll-cons h hs s s' s'' a b = ground arith

module _ {E : Type 0} where
  pub scan_headers-cons :
      (h : Header) (hs : List Header) (s s'' : Scan)
      → scan_headers {E = E} (h ∷ hs) s ≡ ok s''
      → (s' : Scan) × (scan_header {E = E} h s ≡ ok s') × (scan_headers {E = E} hs s' ≡ ok s'')
  unfolding scan_headers
  scan_headers-cons h hs s s'' e = go (scan_header h s) refl e
    where
      go :
          (o : Result Scan (RequestError E))
          → scan_header {E = E} h s ≡ o
          → elim o [ ok s' ↦ scan_headers {E = E} hs s' | err e' ↦ err e' ] ≡ ok s''
          → (s' : Scan) × (scan_header {E = E} h s ≡ ok s') × (scan_headers {E = E} hs s' ≡ ok s'')
      go (ok s') p q = (s', p, q)
      go (err x) p q = absurd (cc)

  scan_headers-AddsAll :
      (hs : List Header) (s s' : Scan)
      → Guarded s
      → scan_headers {E = E} hs s ≡ ok s'
      → AddsAll hs s s'
  scan_headers-AddsAll [] s s' g e =
      unfold scan_headers lengths any_chunked asks_close expects in ground arith
  scan_headers-AddsAll (h ∷ hs) s s'' g e =
      let (s', first, rest) = scan_headers-cons h hs s s'' e in
      let a = scan_header-Adds h s s' (names-Distinct h.name) g first in
      AddsAll-cons h hs s s' s'' a (scan_headers-AddsAll hs s' s'' (Adds-Guarded h s s' a) rest)

-- Where the loop starts.
abbrev pub start : ℕ → Scan
start version = record {
  has_content_length = false;
  close = version == 0;
  expect_continue = false;
  body = fixed 0;
}

module _ {E : Type 0} where
  pub scanned-eq-ok :
      (o : Result Scan (RequestError E)) (head b_head expect close : Bool) (b : BodyKind)
      → scanned head o ≡ ok (b, b_head, expect, close)
      → (s : Scan) × (o ≡ ok s)
        × (b ≡ s.body)
        × (b_head ≡ head)
        × (expect ≡ s.expect_continue)
        × (close ≡ s.close)
  unfolding scanned
  scanned-eq-ok (ok s) head b_head expect close b e = (s, refl, cc, cc, cc, cc)
  scanned-eq-ok (err x) head b_head expect close b e = absurd (cc)

  pub scan_raw_request-scanned :
      (raw : RawRequest) (method : Bytes) (version : ℕ)
      → raw.method ≡ some method
      → raw.version ≡ some version
      → scan_raw_request {E = E} raw
        ≡ ret (scanned (bytes_eq method (codes "HEAD")) (scan_headers raw.headers (start version)))
  unfolding scan_raw_request
  scan_raw_request-scanned raw method version hm hv = rw (hm, hv)

  -- A request that is accepted has a chunked body exactly when one of its Transfer-Encoding
  -- headers ends in `chunked`; it expects 100 Continue exactly when an Expect header says so; its
  -- connection closes exactly when the version is 1.0, a Connection header has the option `close`,
  -- or a Content-Length stands beside a chunked coding; and it is HEAD by its method.
  pub scan_raw_request-framing :
      (raw : RawRequest) (method : Bytes) (version : ℕ) (b : BodyKind) (is_head expect close : Bool)
      → raw.method ≡ some method
      → raw.version ≡ some version
      → scan_raw_request {E = E} raw ≡ ret (ok (b, is_head, expect, close))
      → (is_chunked_body b ≡ any_chunked raw.headers)
        × (expect ≡ expects raw.headers)
        × (close ≡ (
            version == 0
            || (asks_close raw.headers
                || (any_chunked raw.headers && not (is_empty (lengths raw.headers))))))
        × (is_head ≡ bytes_eq method (codes "HEAD"))
  scan_raw_request-framing raw method version b is_head expect close hm hv e =
      let same = ret_injective (rw (scan_raw_request-scanned raw method version hm hv) at e) in
      let (s, loop, body_is, head_is, expect_is, close_is) =
        scanned-eq-ok (scan_headers raw.headers (start version)) _ is_head expect close b same in
      let a = scan_headers-AddsAll raw.headers (start version) s (λ g. cc) loop in
      (
        ground (arith, a.chunks),
        ground (arith, a.expecting),
        ground (arith, a.closing, a.chunks, a.has),
        head_is,
      )
