-- ===== src/Server/Parser/Gathered.antt =====
-- server/parser.rs: a chunked body that is handed over in parts, over all chunks of a stream, and
-- where it fails.
use rotor_http.Prelude.{
  min_right, ℕ, suc, ◌+◌, ◌^◌, ◌≤◌, ◌<◌, ◌≡◌, ◌≢◌, refl, sym, ap, ◌∙◌, false, List, [], ◌∷◌, ◌++◌,
  append_assoc, append-nil, arith, Bytes, crlf, All, length, length-append, none, some, ret,
  add_u64_fits, ◌==◌,
}
use rotor_http.Buffer.{BufferLaws}
use rotor_http.Message.{Message}
use rotor_http.Stream.{
  bytes, delimiter, Delivery, Piece, stream, payloads, SizeLine, IsChunk, rounds, pos_suc,
}
use rotor_http.Server.Parser.Buffered.{feed_step}
use rotor_http.Server.Parser.Decode.{again, feed}
use rotor_http.Server.Parser.Gather.{waiting, size_round, chunk_round, last_round}
use rotor_http.Server.Parser.Reading.{goes_on}
use rotor_http.Server.Parser.Trickle.{Collects}
use rotor_http.Server.Parser.{progressive_chunked, body_expectation, max_chunk_head}
use rotor_http.Server.Protocol.{Env}

-- Each chunk, with what waits when it comes, is within the hint.
abbrev pub Fits : ℕ → ℕ → List Piece → Type 0
Fits hint off [] = Unit
Fits hint off (p ∷ ps) =
    (off + length p.payload ≤ hint) × Fits hint (waiting hint (off + length p.payload)) ps

expectation_of_size :
    (hint off : ℕ)
    → body_expectation (progressive_chunked hint off 0)
      ≡ ret (delimiter off crlf (off + max_chunk_head))
unfolding body_expectation
expectation_of_size hint off = refl

expectation_of_chunk :
    (hint off k : ℕ)
    → off + suc k ≤ hint
    → hint + 2 < 2 ^ 64
    → body_expectation (progressive_chunked hint off (suc k)) ≡ ret (bytes (off + suc k + 2))
unfolding body_expectation
expectation_of_chunk hint off k fits word =
    let more : (suc k == 0) ≡ false = ground arith in
    rw (
      more,
      add_u64_fits off (suc k) (omega arith),
      min_right hint (off + suc k) fits,
      add_u64_fits (off + suc k) 2 (omega arith),
    )

module _ (e : Env) (laws : BufferLaws e.ops) (d : Delivery) (c : Collects e) where
  open e use {Buf, Machine, Seed, Scope, ops}
  open ops use {contents}

  expect_line :
      (got line rest : Bytes) (inp : Buf)
      → All (λ x. x ≢ 13) line
      → length line + 2 ≤ max_chunk_head
      → contents inp ≡ got ++ (line ++ (crlf ++ rest))
      → d.deliver (delimiter (length got) crlf (length got + max_chunk_head)) (contents inp)
        ≡ some (length line)
  expect_line got line rest inp no_cr short holds =
      rw holds (d.deliver_line got line rest (length got) _ refl no_cr (omega arith))

  -- Two rounds for a chunk: its size line, and its data.
  feed_chunk :
      (fuel hint k : ℕ) (got line payload rest : Bytes) (m : Machine) (seed : Seed) (inp : Buf)
      (resp : Message Buf) (scope : Scope)
      → SizeLine e.parse_chunk_size line (suc k)
      → length payload ≡ suc k
      → length got + suc k ≤ hint
      → hint + 2 < 2 ^ 64
      → contents inp ≡ got ++ (line ++ (crlf ++ (payload ++ (crlf ++ rest))))
      → (got' : Bytes) × (inp' : Buf) × (scope' : Scope) × (feed e d
            (suc (suc fuel))
            seed
            (progressive_chunked hint (length got) 0)
            (some m)
            inp
            resp
            scope
          ≡ feed e d fuel seed (progressive_chunked hint (length got') 0) (some m) inp' resp scope')
        × (contents inp' ≡ got' ++ rest)
        × (c.taken scope' ++ got' ≡ c.taken scope ++ (got ++ payload))
        × (length got' ≡ waiting hint (length got + suc k))
  unfolding again
  feed_chunk fuel hint k got line payload rest m seed inp resp scope l size fits word holds =
      let (inp₁, first, holds₁) =
        size_round e laws hint k got line (payload ++ (crlf ++ rest)) (some m) seed inp resp scope l
          holds in
      let there : length got + suc k + 2 ≤ length (contents inp₁) = rw holds₁ (
        omega (
          arith,
          length-append got (payload ++ (crlf ++ rest)),
          length-append payload (crlf ++ rest),
        )) in
      let (got', inp', scope', second, left, kept, waits) =
        chunk_round e laws c hint k got payload rest m seed inp₁ resp scope size (omega arith)
          holds₁ in
      (
        got',
        inp',
        scope',
        feed_step e laws d (suc fuel) seed (progressive_chunked hint (length got) 0) (some m) inp
              resp scope _ _ (expectation_of_size hint (length got))
              (expect_line got line (payload ++ (crlf ++ rest)) inp l.no_cr l.short holds)
            ∙ rw first (
                feed_step e laws d fuel seed (progressive_chunked hint (length got) (suc k))
                  (some m) inp₁ resp scope _ _ (expectation_of_chunk hint (length got) k fits word)
                  (d.deliver_bytes (length got + suc k + 2) (contents inp₁) there)
                ∙ rw second),
        left,
        kept,
        waits,
      )

  feed-stream :
      (ps : List Piece) (hint : ℕ) (got last rest : Bytes) (m : Machine) (seed : Seed) (inp : Buf)
      (resp : Message Buf) (scope : Scope)
      → All (IsChunk e.parse_chunk_size) ps
      → SizeLine e.parse_chunk_size last 0
      → Fits hint (length got) ps
      → hint + 2 < 2 ^ 64
      → contents inp ≡ got ++ stream ps last rest
      → (inp' : Buf) × (scope' : Scope) × (feed e d
            (rounds ps)
            seed
            (progressive_chunked hint (length got) 0)
            (some m)
            inp
            resp
            scope
          ≡ ret (goes_on none none inp' resp scope'))
        × (contents inp' ≡ rest)
        × (c.taken scope' ≡ c.taken scope ++ (got ++ payloads ps))
  unfolding again
  feed-stream [] hint got last rest m seed inp resp scope a l fits word holds =
      let (inp', scope', ends, left, took) =
        last_round e laws c hint got last rest m seed inp resp scope l holds in
      (
        inp',
        scope',
        feed_step e laws d 0 seed (progressive_chunked hint (length got) 0) (some m) inp resp scope
              _ _ (expectation_of_size hint (length got))
              (expect_line got last rest inp l.no_cr l.short holds)
            ∙ rw ends refl,
        left,
        took ∙ rw (append-nil got) refl,
      )
  feed-stream (p ∷ ps) hint got last rest m seed inp resp scope a l fits word holds =
      let (k, size_is) = pos_suc (length p.payload) a.0.not_empty in
      let (got', inp₁, scope₁, two, holds₁, kept, waits) =
        feed_chunk (rounds ps) hint k got p.line p.payload (stream ps last rest) m seed inp resp
          scope (rw size_is at a.0.size_line) size_is (rw size_is at fits.0) word holds in
      let fits' : Fits hint (length got') ps = rw (waits, ← size_is) fits.1 in
      let (inp', scope', more, left, took) =
        feed-stream ps hint got' last rest m seed inp₁ resp scope₁ a.1 l fits' word holds₁ in
      (
        inp',
        scope',
        two ∙ more,
        left,
        took
            ∙ sym (append_assoc (c.taken scope₁) got' (payloads ps))
            ∙ ap (λ t. t ++ payloads ps) kept
            ∙ simp append_assoc,
      )

  -- A chunked body that is handed over in parts reaches the handler whole, as long as each chunk,
  -- with what waits for the handler when it comes, is within the hint: from an input that holds
  -- the chunks, each with a size line that httparse reads as the size of its data, a last size line
  -- of 0 and anything behind it, and with the hint and a line end a u64, a handler that keeps what it
  -- takes has taken exactly the data of all chunks, in order, when the request ends, and what
  -- stands behind the last size line is left in the input.
  pub feed_progressive_chunks :
      (ps : List Piece) (hint : ℕ) (last rest : Bytes) (m : Machine) (seed : Seed) (inp : Buf)
      (resp : Message Buf) (scope : Scope)
      → All (IsChunk e.parse_chunk_size) ps
      → SizeLine e.parse_chunk_size last 0
      → Fits hint 0 ps
      → hint + 2 < 2 ^ 64
      → contents inp ≡ stream ps last rest
      → (inp' : Buf) × (scope' : Scope) × (feed e d
            (rounds ps)
            seed
            (progressive_chunked hint 0 0)
            (some m)
            inp
            resp
            scope
          ≡ ret (goes_on none none inp' resp scope'))
        × (contents inp' ≡ rest)
        × (c.taken scope' ≡ c.taken scope ++ payloads ps)
  feed_progressive_chunks ps hint last rest m seed inp resp scope a l fits word holds =
      feed-stream ps hint [] last rest m seed inp resp scope a l fits word holds
