-- ===== src/Server/Scan/Length.antt =====
-- Which length a request declares, and which requests are refused for their lengths.
use rotor_http.Prelude.{
  ℕ, ◌≡◌, refl, Bool, true, false, ◌&&◌, List, [], ◌∷◌, arith, Bytes, Bool-cases, inl, inr, some,
  ret, ret_injective, Result, ok, err,
}
use rotor_http.Std.Ascii.{split}
use rotor_http.Std.Radix.{parse_u64}
use rotor_http.Std.Utf8.{is_utf8}
use rotor_http.Headers.{is_transfer_encoding, is_content_length}
use rotor_http.Server.Body.{BodyKind, fixed}
use rotor_http.Server.Error.{RequestError}
use rotor_http.Server.Scan.{
  Header, RawRequest, Scan, is_chunked_body, last_is_chunked, comma, declared_length,
  scan_transfer_encoding, scan_content_length, set_length, scan_header, scan_headers,
  scan_raw_request,
}
use rotor_http.Server.Scan.Framing.{
  names-Distinct, lengths, any_chunked, start, scan_headers-cons, scanned-eq-ok,
  scan_raw_request-scanned,
}

abbrev one_if : Bool → ℕ
one_if true = 1
one_if false = 0

-- A value that reads as a length.
pub record Reads (v : Bytes) (n : ℕ) : Type 0 where
  pub text : is_utf8 v ≡ true
  pub digits : parse_u64 v ≡ ok n

-- The body that the Content-Length values declare: empty with none of them, the value's number
-- with one. `seen` says that one was read before, and `b` is the body up to then.
abbrev pub Declares : Bool → BodyKind → List Bytes → BodyKind → Type 0
Declares seen b [] b' = b' ≡ b
Declares true b (v ∷ vs) b' = ⊥
Declares false b (v ∷ vs) b' = (n : ℕ) × Reads v n × (vs ≡ []) × (b' ≡ fixed n)

Declares-seen : (b b' : BodyKind) (vs : List Bytes) → Declares true b vs b' → (vs ≡ []) × (b' ≡ b)
Declares-seen b b' [] d = (refl, d)
Declares-seen b b' (v ∷ vs) d = absurd d

Declares-other :
    (h : Header) (hs : List Header) (seen : Bool) (b b' : BodyKind)
    → is_content_length h.name ≡ false
    → Declares seen b (lengths hs) b'
    → Declares seen b (lengths (h ∷ hs)) b'
unfolding lengths
Declares-other h hs seen b b' other d = rw other d

module _ {E : Type 0} where
  declared_length-Reads : (v : Bytes) (n : ℕ) → declared_length {E = E} v ≡ ok n → Reads v n
  unfolding declared_length
  declared_length-Reads v n h = ground arith

  pub Reads-declared_length : (v : Bytes) (n : ℕ) → Reads v n → declared_length {E = E} v ≡ ok n
  unfolding declared_length
  Reads-declared_length v n h = ground arith

  scan_header-other :
      (h : Header) (s s' : Scan)
      → scan_header {E = E} h s ≡ ok s'
      → (is_transfer_encoding h.name && last_is_chunked (split comma h.value)) ≡ false
      → is_content_length h.name ≡ false
      → (s'.has_content_length ≡ s.has_content_length) × (s'.body ≡ s.body)
  unfolding scan_header scan_transfer_encoding
  scan_header-other h s s' e t c = ground arith

  scan_header-length :
      (h : Header) (s : Scan)
      → is_transfer_encoding h.name ≡ false
      → is_content_length h.name ≡ true
      → scan_header {E = E} h s ≡ scan_content_length h.value s
  unfolding scan_header
  scan_header-length h s t c = ground arith

  set_length-ok :
      (s s' : Scan) (o : Result ℕ (RequestError E))
      → set_length s o ≡ ok s'
      → (n : ℕ) × (o ≡ ok n) × (s'.has_content_length ≡ true) × (s'.body ≡ fixed n)
  unfolding set_length
  set_length-ok s s' (ok n) e = (n, refl, ground arith, ground arith)
  set_length-ok s s' (err x) e = absurd (cc)

  scan_content_length-set :
      (v : Bytes) (s s' : Scan)
      → is_chunked_body s.body ≡ false
      → scan_content_length {E = E} v s ≡ ok s'
      → (s.has_content_length ≡ false) × (set_length {E = E} s (declared_length v) ≡ ok s')
  unfolding scan_content_length
  scan_content_length-set v s s' b e = ground arith

  scan_header-sets :
      (h : Header) (s s' : Scan)
      → is_transfer_encoding h.name ≡ false
      → is_content_length h.name ≡ true
      → is_chunked_body s.body ≡ false
      → scan_header {E = E} h s ≡ ok s'
      → (s'.has_content_length ≡ true) × ((n : ℕ) × (s'.body ≡ fixed n))
  scan_header-sets h s s' t l b first =
      let (unseen, set) =
        scan_content_length-set h.value s s' b (rw (scan_header-length h s t l) at first) in
      let (n, reads, has, body_is) = set_length-ok s s' (declared_length h.value) set in
      (has, (n, body_is))

  Declares-cons :
      (h : Header) (hs : List Header) (s s' : Scan) (b' : BodyKind)
      → is_transfer_encoding h.name ≡ false
      → is_content_length h.name ≡ true
      → is_chunked_body s.body ≡ false
      → scan_header {E = E} h s ≡ ok s'
      → Declares s'.has_content_length s'.body (lengths hs) b'
      → Declares s.has_content_length s.body (lengths (h ∷ hs)) b'
  unfolding lengths
  Declares-cons h hs s s' b' t l b first d =
      let (unseen, set) =
        scan_content_length-set h.value s s' b (rw (scan_header-length h s t l) at first) in
      let (n, reads, has, body_is) = set_length-ok s s' (declared_length h.value) set in
      let (last, ends) = Declares-seen (fixed n) b' (lengths hs) (rw (has, body_is) at d) in
      rw (l, unseen) (n, declared_length-Reads h.value n reads, last, ends)

  -- The values of the Content-Length headers of an accepted request that is not chunked declare
  -- its body.
  scan_headers-Declares :
      (hs : List Header) (s s' : Scan)
      → scan_headers {E = E} hs s ≡ ok s'
      → any_chunked hs ≡ false
      → is_chunked_body s.body ≡ false
      → Declares s.has_content_length s.body (lengths hs) s'.body
  scan_headers-Declares [] s s' e c b = unfold scan_headers lengths in ground arith
  scan_headers-Declares (h ∷ hs) s s'' e c b =
      let (s', first, rest) = scan_headers-cons h hs s s'' e in
      let plain : (is_transfer_encoding h.name && last_is_chunked (split comma h.value)) ≡ false =
        unfold any_chunked in ground arith in
      let others : any_chunked hs ≡ false = unfold any_chunked in ground arith in
      elim (Bool-cases (is_content_length h.name)) [
        | inr other ↦
            let (has, same) = scan_header-other h s s' first plain other in
            let ih = scan_headers-Declares hs s' s'' rest others (rw same b) in
            Declares-other h hs s.has_content_length s.body s''.body other (rw (has, same) at ih)
        | inl is_length ↦
            let d = names-Distinct h.name in
            let t : is_transfer_encoding h.name ≡ false = ground (arith, d.te_cl) in
            let (has, (n, body_is)) = scan_header-sets h s s' t is_length b first in
            Declares-cons h hs s s' s''.body t is_length b first
              (scan_headers-Declares hs s' s'' rest others (rw body_is refl))
      ]

  -- A request that is accepted with no chunked coding has the body that its Content-Length
  -- headers declare: no byte when there is none, and with one of them, whose value is UTF-8 and a
  -- decimal number below 2 ^ 64, that number of bytes; there are no two.
  pub scan_raw_request-length :
      (raw : RawRequest) (method : Bytes) (version : ℕ) (b : BodyKind) (is_head expect close : Bool)
      → raw.method ≡ some method
      → raw.version ≡ some version
      → any_chunked raw.headers ≡ false
      → scan_raw_request {E = E} raw ≡ ret (ok (b, is_head, expect, close))
      → Declares false (fixed 0) (lengths raw.headers) b
  scan_raw_request-length raw method version b is_head expect close hm hv c e =
      let same = ret_injective (rw (scan_raw_request-scanned raw method version hm hv) at e) in
      let (s, loop, body_is, _, _, _) =
        scanned-eq-ok (scan_headers raw.headers (start version)) _ is_head expect close b same in
      rw body_is (scan_headers-Declares raw.headers (start version) s loop c refl)
