-- ===== src/Tests/Bodies.antt =====
-- A chunked body read from a buffer of bytes, by a handler that logs what it is given.
use rotor_http.Prelude.{
  ℕ, suc, ◌+◌, ◌-◌, ◌≤◌, ◌≡◌, ◌≢◌, refl, Bool, true, false, ◌&&◌, List, [], ◌∷◌, ◌++◌, Bytes, codes,
  crlf, All, length, drop, drop_prefix, leb, ◌==◌, if◌then◌else◌, Option, none, some, ret, arith,
  ◌>>=◌,
}
use rotor_http.Buffer.{byte_buffer, byte_buffer_laws}
use rotor_http.Message.State.{MessageState}
use rotor_http.RecvMode.{buffered}
use rotor_http.Server.Body.{fixed}
use rotor_http.Server.Parser.Trickle.{Collects, trickle, trickle-progressive_fixed}
use rotor_http.Server.Parser.Whole.{feed_buffered_fixed}
use rotor_http.Server.Parser.{
  progressive_fixed, start_body, buffer_chunked, Expectation, bytes, delimiter, flush, sleep,
}
use rotor_http.Server.Parser.Buffered.{feed_buffered_chunks}
use rotor_http.Server.Parser.Decode.{Piece, SizeLine, Delivery, feed}
use rotor_http.Server.Parser.Reading.{goes_on}
use rotor_http.Server.Protocol.{Env, ChunkSize, Parsed}

-- One digit and a line end.
abbrev pub one_digit : Bytes → ChunkSize
one_digit (c ∷ x ∷ y ∷ []) =
    if leb 48 c && leb c 57 then ChunkSize.complete 3 (c - 48) else ChunkSize.invalid
one_digit _ = ChunkSize.invalid

abbrev pub starts_lf : Bytes → Bool
starts_lf [] = false
starts_lf (c ∷ s) = c == 10

abbrev pub later : Option ℕ → Option ℕ
later none = none
later (some n) = some (suc n)

abbrev pub find_line : Bytes → Option ℕ
find_line [] = none
find_line (c ∷ s) = if c == 13 && starts_lf s then some 0 else later (find_line s)

abbrev pub within : ℕ → ℕ → Option ℕ → Option ℕ
within off limit none = none
within off limit (some n) = if leb (off + n + 2) limit then some n else none

abbrev pub answer : Expectation → Bytes → Option ℕ
answer (bytes n) c = if leb n (length c) then some n else none
answer (delimiter off d limit) c = within off limit (find_line (drop off c))
answer (flush n) c = none
answer sleep c = none

pub find_line-crlf :
    (line rest : Bytes)
    → All (λ c. c ≢ 13) line
    → find_line (line ++ (crlf ++ rest)) ≡ some (length line)
find_line-crlf [] rest h = refl
find_line-crlf (c ∷ line) rest h =
    let other : (c == 13) ≡ false = ground (arith, h.0) in rw (other, find_line-crlf line rest h.1)

pub leb-true : (m n : ℕ) → m ≤ n → leb m n ≡ true
leb-true m n h = ground arith

abbrev pub simple_delivery : Delivery
simple_delivery = record {
  deliver = answer;
  deliver_bytes = λ n c h. rw (leb-true n (length c) h);
  deliver_line = λ before line rest off limit at_end no_cr short. rw (
    drop_prefix off before (line ++ (crlf ++ rest)) at_end,
    find_line-crlf line rest no_cr,
    leb-true (off + length line + 2) limit short,
  );
}

abbrev pub logging : Env
logging = record {
  Buf = Bytes;
  Machine = Unit;
  Seed = Unit;
  Scope = List Bytes;
  Time = ℕ;
  Duration = ℕ;
  Addr = Unit;
  ParseError = Unit;
  ops = byte_buffer;
  now = λ scope. 0;
  add_time = λ t d. t + d;
  parse_request = λ s. Parsed.partial;
  parse_chunk_size = one_digit;
  headers_received = λ seed request resp scope. ret (none, resp, scope);
  request_received = λ m piece resp scope. ret (none, resp, piece ∷ scope);
  bad_request = λ m resp scope. ret (resp, scope);
  request_chunk = λ m piece resp scope. ret (some m, resp, piece ∷ scope);
  request_end = λ m resp scope. ret (none, resp, scope);
  timeout = λ m resp scope. ret (none, resp, scope);
  wakeup = λ m resp scope. ret (some m, resp, scope);
  emit_error_page = λ x resp seed scope. ret (resp, scope);
  idle_timeout = λ seed scope. (120, scope);
  header_byte_timeout = λ seed scope. (45, scope);
  send_response_timeout = λ seed scope. (3600, scope);
}

abbrev pub two_chunks : List Piece
two_chunks =
    record { line = codes "2"; payload = codes "ab" }
    ∷ record { line = codes "3"; payload = codes "cde" }
    ∷ []

pub size_line : (c : ℕ) → c ≢ 13 → 48 ≤ c → c ≤ 57 → SizeLine one_digit (c ∷ []) (c - 48)
size_line c h lo hi = record {
  no_cr = (h, tt);
  short = omega arith;
  index = 3;
  reads = rw (leb-true 48 c lo, leb-true c 57 hi);
}

feed_buffered_chunks_example :
    (inp' : Bytes) × (feed logging simple_delivery 5 tt
        (buffer_chunked 10 0 0)
        (some tt)
        (codes "2\r\nab\r\n3\r\ncde\r\n0\r\n\r\n")
        ([], MessageState.done)
        []
      ≡ ret (goes_on none none inp' ([], MessageState.done) (codes "abcde" ∷ [])))
    × (inp' ≡ codes "\r\n")
feed_buffered_chunks_example =
    feed_buffered_chunks logging byte_buffer_laws simple_delivery two_chunks 10 (codes "0")
      (codes "\r\n") tt tt (codes "2\r\nab\r\n3\r\ncde\r\n0\r\n\r\n") ([], MessageState.done) []
      (
        record {
          size_line = size_line 50 (omega arith) (omega arith) (omega arith);
          not_empty = omega arith;
        },
        (
          record {
            size_line = size_line 51 (omega arith) (omega arith) (omega arith);
            not_empty = omega arith;
          },
          tt,
        ),
      )
      (size_line 48 (omega arith) (omega arith) (omega arith)) (omega arith) (omega arith) refl

feed_buffered_fixed_example :
    (inp' : Bytes) × ((do
      p ← start_body (buffered 10) (fixed 3)
      feed logging simple_delivery 1 tt p (some tt) (codes "abcGET") ([], MessageState.done) [])
      ≡ ret (goes_on none none inp' ([], MessageState.done) (codes "abc" ∷ [])))
    × (inp' ≡ codes "GET")
feed_buffered_fixed_example =
    feed_buffered_fixed logging byte_buffer_laws simple_delivery 10 (codes "abc") (codes "GET") tt
      tt (codes "abcGET") ([], MessageState.done) [] refl

abbrev pub taken_in : List Bytes → Bytes
taken_in [] = []
taken_in (piece ∷ pieces) = taken_in pieces ++ piece

abbrev pub logged : Collects logging
logged = record {
  taken = taken_in;
  keep = λ m piece scope. piece ∷ scope;
  close = λ m scope. scope;
  on_chunk = λ m piece resp scope. refl;
  on_end = λ m resp scope. refl;
  taken-keep = λ m piece scope. refl;
  taken-close = λ m scope. refl;
}

trickle-progressive_fixed_example :
    (inp' : Bytes) × (scope' : List Bytes) × (trickle logging
        (codes "ab" ∷ codes "c" ∷ codes "deGET" ∷ [])
        tt
        (progressive_fixed 2 5)
        (some tt)
        []
        ([], MessageState.done)
        []
      ≡ ret (goes_on none none inp' ([], MessageState.done) scope'))
    × (taken_in scope' ≡ codes "abcde")
    × (inp' ≡ codes "GET")
trickle-progressive_fixed_example =
    trickle-progressive_fixed logging byte_buffer_laws logged (codes "ab" ∷ codes "c" ∷ []) 2
      (codes "de") (codes "GET") tt tt [] ([], MessageState.done) [] refl (omega arith)
