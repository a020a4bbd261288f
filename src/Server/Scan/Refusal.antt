-- ===== src/Server/Scan/Refusal.antt =====
-- Which requests are refused for their Content-Length headers: a second one, or one that does not
-- read as a number; and that nothing else in the headers is a reason.
use rotor_http.Prelude.{
  ℕ, ◌+◌, ◌≤◌, ◌≡◌, refl, Bool, true, false, ◌&&◌, List, [], ◌∷◌, arith, Bytes, codes, All, length,
  Bool-cases, inl, inr, Option, none, some, ret, Result, ok, err,
}
use rotor_http.Std.Ascii.{bytes_eq}
use rotor_http.Headers.{is_transfer_encoding, is_content_length}
use rotor_http.Server.Body.{BodyKind}
use rotor_http.Server.Error.{RequestError}
use rotor_http.Server.Scan.{
  Header, RawRequest, Scan, declared_length, scan_transfer_encoding, scan_content_length,
  set_length, scan_header, scan_headers, scanned, scan_raw_request,
}
use rotor_http.Server.Scan.Framing.{
  names-Distinct, lengths, start, scan_headers-cons, scan_raw_request-scanned,
}
use rotor_http.Server.Scan.Length.{Reads, Reads-declared_length}

abbrev one_if : Bool → ℕ
one_if true = 1
one_if false = 0

one_if_le : (b : Bool) → one_if b ≤ 1
one_if_le b = ground arith

-- The value reads as a number.
abbrev pub Readable : Bytes → Type 0
Readable v = (n : ℕ) × Reads v n

length-cons :
    (h : Header) (hs : List Header) (a b c : ℕ)
    → one_if (is_content_length h.name) + a ≤ b
    → length (lengths hs) + b ≤ c
    → length (lengths (h ∷ hs)) + a ≤ c
unfolding lengths
length-cons h hs a b c p q = ground arith

lengths-other :
    (h : Header) (hs : List Header) (a : ℕ)
    → is_content_length h.name ≡ false
    → All Readable (lengths (h ∷ hs))
    → length (lengths (h ∷ hs)) + a ≤ 1
    → All Readable (lengths hs) × (length (lengths hs) + a ≤ 1)
unfolding lengths
lengths-other h hs n other a c = (rw other at a, rw other at c)

lengths-length :
    (h : Header) (hs : List Header) (seen : Bool)
    → is_content_length h.name ≡ true
    → All Readable (lengths (h ∷ hs))
    → length (lengths (h ∷ hs)) + one_if seen ≤ 1
    → Readable h.value
      × All Readable (lengths hs)
      × (length (lengths hs) + one_if true ≤ 1)
      × (seen ≡ false)
unfolding lengths
lengths-length h hs true l a c = absurd (omega (arith, rw l at c))
lengths-length h hs false l a c =
    let readable = rw l at a in (readable.0, readable.1, omega (arith, rw l at c), refl)

module _ {E : Type 0} where
  scan_header-count :
      (h : Header) (s s' : Scan)
      → (is_transfer_encoding h.name && is_content_length h.name) ≡ false
      → scan_header {E = E} h s ≡ ok s'
      → one_if (is_content_length h.name) + one_if s.has_content_length
        ≤ one_if s'.has_content_length
  unfolding scan_header scan_content_length set_length scan_transfer_encoding
  scan_header-count h s s' d e = ground arith

  scan_headers-count :
      (hs : List Header) (s s' : Scan)
      → scan_headers {E = E} hs s ≡ ok s'
      → length (lengths hs) + one_if s.has_content_length ≤ one_if s'.has_content_length
  scan_headers-count [] s s' e = unfold scan_headers lengths in ground arith
  scan_headers-count (h ∷ hs) s s'' e =
      let (s', first, rest) = scan_headers-cons h hs s s'' e in
      length-cons h hs _ _ _ (scan_header-count h s s' (names-Distinct h.name).te_cl first)
        (scan_headers-count hs s' s'' rest)

  flag_of : Result Scan (RequestError E) → Option Bool
  flag_of (ok s) = some s.has_content_length
  flag_of (err e) = none

  flag_of-some :
      (o : Result Scan (RequestError E)) (f : Bool)
      → flag_of o ≡ some f
      → (s : Scan) × (o ≡ ok s) × (s.has_content_length ≡ f)
  unfolding flag_of
  flag_of-some (ok s) f e = (s, refl, cc)
  flag_of-some (err x) f e = absurd (cc)

  scan_header-other_ok :
      (h : Header) (s : Scan)
      → is_content_length h.name ≡ false
      → (s' : Scan) × (scan_header {E = E} h s ≡ ok s')
        × (s'.has_content_length ≡ s.has_content_length)
  unfolding flag_of scan_header scan_transfer_encoding
  scan_header-other_ok h s other =
      flag_of-some (scan_header {E = E} h s) s.has_content_length (ground arith)

  scan_header-length_ok :
      (h : Header) (s : Scan) (n : ℕ)
      → (is_transfer_encoding h.name && is_content_length h.name) ≡ false
      → is_content_length h.name ≡ true
      → s.has_content_length ≡ false
      → declared_length {E = E} h.value ≡ ok n
      → flag_of (scan_header {E = E} h s) ≡ some true
  unfolding flag_of scan_header scan_content_length set_length
  scan_header-length_ok h s n d l unseen reads = ground arith

  scan_headers-step :
      (h : Header) (hs : List Header) (s s' s'' : Scan)
      → scan_header {E = E} h s ≡ ok s'
      → scan_headers {E = E} hs s' ≡ ok s''
      → scan_headers {E = E} (h ∷ hs) s ≡ ok s''
  unfolding scan_headers
  scan_headers-step h hs s s' s'' first rest = ground arith

  scan_headers-accepts :
      (hs : List Header) (s : Scan)
      → All Readable (lengths hs)
      → length (lengths hs) + one_if s.has_content_length ≤ 1
      → (s' : Scan) × (scan_headers {E = E} hs s ≡ ok s')
  scan_headers-accepts [] s a c = (s, unfold scan_headers in refl)
  scan_headers-accepts (h ∷ hs) s a c = elim (Bool-cases (is_content_length h.name)) [
    | inr other ↦
        let (s', first, has) = scan_header-other_ok h s other in
        let (a', c') = lengths-other h hs _ other a c in
        let (s'', rest) = scan_headers-accepts hs s' a' (rw has c') in
        (s'', scan_headers-step h hs s s' s'' first rest)
    | inl is_length ↦
        let ((n, reads), a', none_left, unseen) =
          lengths-length h hs s.has_content_length is_length a c in
        let (s', first, has) = flag_of-some (scan_header h s) _ (
          scan_header-length_ok h s n (names-Distinct h.name).te_cl is_length unseen
            (Reads-declared_length h.value n reads)) in
        let (s'', rest) = scan_headers-accepts hs s' a' (rw has none_left) in
        (s'', scan_headers-step h hs s s' s'' first rest)
  ]

  -- Two Content-Length headers are always refused, whatever else the request says.
  pub scan_raw_request-duplicate :
      (raw : RawRequest) (method : Bytes) (version : ℕ)
      → raw.method ≡ some method
      → raw.version ≡ some version
      → 2 ≤ length (lengths raw.headers)
      → (e : RequestError E) × (scan_raw_request raw ≡ ret (err e))
  scan_raw_request-duplicate raw method version hm hv two =
      rw (scan_raw_request-scanned raw method version hm hv)
        (refused (bytes_eq method (codes "HEAD")) (scan_headers raw.headers (start version)) refl)
    where
      refused :
          (head : Bool) (o : Result Scan (RequestError E))
          → scan_headers raw.headers (start version) ≡ o
          → (e : RequestError E) × (ret (scanned head o) ≡ ret (err e))
      refused head (err x) e = (x, unfold scanned in refl)
      refused head (ok s) e = absurd (
          omega (
            arith,
            scan_headers-count raw.headers (start version) s e,
            one_if_le s.has_content_length,
          ))

  -- A request with at most one Content-Length header, whose value is UTF-8 and reads as a number
  -- below 2 ^ 64, is accepted, whatever its other headers are. That includes a Transfer-Encoding that
  -- is not chunked, also without a Content-Length, which rules 3 and 4 of the source's comment call a
  -- bad request.
  pub scan_raw_request-accepts :
      (raw : RawRequest) (method : Bytes) (version : ℕ)
      → raw.method ≡ some method
      → raw.version ≡ some version
      → length (lengths raw.headers) ≤ 1
      → All Readable (lengths raw.headers)
      → (b : BodyKind) × (expect : Bool) × (close : Bool) × (scan_raw_request {E = E} raw
          ≡ ret (ok (b, bytes_eq method (codes "HEAD"), expect, close)))
  scan_raw_request-accepts raw method version hm hv one a =
      let (s, loop) = scan_headers-accepts raw.headers (start version) a (omega arith) in
      (
        s.body,
        s.expect_continue,
        s.close,
        rw (scan_raw_request-scanned raw method version hm hv, loop) (unfold scanned in refl),
      )
