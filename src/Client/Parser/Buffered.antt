-- ===== src/Client/Parser/Buffered.antt =====
-- A buffered chunked response: the rounds put together, over all chunks of a stream.
use rotor_http.Prelude.{
  ℕ, suc, ◌+◌, ◌^◌, ◌≤◌, ◌<◌, ◌≡◌, ◌≢◌, refl, ◌∙◌, false, ◌==◌, List, [], ◌∷◌, ◌++◌, append_assoc,
  append-nil, arith, Bytes, crlf, All, length, length-append, some, Outcome, ret, panic, ◌>>=◌,
  add_u64_fits,
}
use rotor_http.Buffer.{BufferLaws}
use rotor_http.Client.Parser.Chunks.{
  consumed-length, resumed, again, feed, size_round, chunk_round, last_round,
}
use rotor_http.Client.Parser.Reading.{finished, round}
use rotor_http.Client.Parser.{
  BodyProgress, buffer_chunked, body_expectation, consumed, max_chunk_head,
}
use rotor_http.Client.Protocol.{Env}
use rotor_http.Client.Request.{Request}
use rotor_http.Stream.{
  Expectation, bytes, delimiter, Delivery, Piece, stream, payloads, SizeLine, IsChunk, separator,
  rounds, pos_suc, separator_pos,
}

expectation_of_size :
    (limit off : ℕ)
    → body_expectation (buffer_chunked limit off 0)
      ≡ ret (delimiter (consumed off) crlf (consumed off + max_chunk_head))
unfolding body_expectation
expectation_of_size limit off = refl

expectation_of_chunk :
    (limit off k : ℕ)
    → off + suc k + 2 < 2 ^ 64
    → body_expectation (buffer_chunked limit off (suc k)) ≡ ret (bytes (off + suc k + 2))
unfolding body_expectation
expectation_of_chunk limit off k h =
    let more : (suc k == 0) ≡ false = ground arith in
    rw (more, add_u64_fits off (suc k) (omega arith), add_u64_fits (off + suc k) 2 h)

module _ (e : Env) (laws : BufferLaws e.ops) (d : Delivery) where
  open e use {Buf, Req, Scope, ops}
  open ops use {contents}

  feed_step :
      (fuel : ℕ) (p : BodyProgress) (m : Req) (inp : Buf) (req : Request Buf) (scope : Scope)
      (exp : Expectation) (end : ℕ)
      → body_expectation p ≡ ret exp
      → d.deliver exp (contents inp) ≡ some end
      → feed e d (suc fuel) p m inp req scope
        ≡ (do r ← round e p end m inp req scope; again e (feed e d fuel) r)
  unfolding feed
  feed_step fuel p m inp req scope exp end x y = rw (x, y)

  expect_line :
      (got line rest : Bytes) (inp : Buf)
      → All (λ c. c ≢ 13) line
      → length line + 2 ≤ max_chunk_head
      → contents inp ≡ (got ++ separator got) ++ (line ++ (crlf ++ rest))
      → d.deliver
          (delimiter (consumed (length got)) crlf (consumed (length got) + max_chunk_head))
          (contents inp)
        ≡ some (length line)
  expect_line got line rest inp no_cr short c = rw c (
      d.deliver_line (got ++ separator got) line rest (consumed (length got)) _
        (consumed-length got) no_cr (omega arith))

  -- Two rounds for a chunk: its size line, and its data.
  feed_chunk :
      (fuel limit k : ℕ) (got line payload rest : Bytes) (m : Req) (inp : Buf) (req : Request Buf)
      (scope : Scope)
      → SizeLine e.parse_chunk_size line (suc k)
      → length payload ≡ suc k
      → length got + suc k ≤ limit
      → limit + 2 < 2 ^ 64
      → contents inp ≡ (got ++ separator got) ++ (line ++ (crlf ++ (payload ++ (crlf ++ rest))))
      → (inp' : Buf) × (feed e d
            (suc (suc fuel))
            (buffer_chunked limit (length got) 0)
            m
            inp
            req
            scope
          ≡ feed e d fuel
              (buffer_chunked limit (length got + suc k) 0)
              m
              inp'
              (resumed e req)
              scope)
        × (contents inp' ≡ got ++ (payload ++ (crlf ++ rest)))
  unfolding again
  feed_chunk fuel limit k got line payload rest m inp req scope l size fits word c =
      let (inp', first, holds) =
        size_round e laws limit k got line (payload ++ (crlf ++ rest)) m inp req scope l fits
          (omega arith) c in
      let there : length got + suc k + 2 ≤ length (contents inp') = rw holds (
        omega (
          arith,
          length-append got (payload ++ (crlf ++ rest)),
          length-append payload (crlf ++ rest),
        )) in
      (
        inp',
        feed_step (suc fuel) (buffer_chunked limit (length got) 0) m inp req scope _ _
              (expectation_of_size limit (length got))
              (expect_line got line (payload ++ (crlf ++ rest)) inp l.no_cr l.short c)
            ∙ rw first (
                feed_step fuel (buffer_chunked limit (length got) (suc k)) m inp' (resumed e req)
                  scope _ _ (expectation_of_chunk limit (length got) k (omega arith))
                  (d.deliver_bytes (length got + suc k + 2) (contents inp') there)
                ∙ rw (chunk_round e laws limit (length got) k m inp' (resumed e req) scope)),
        holds,
      )

  -- Where the handler has taken the body, no round follows.
  nothing_again :
      (fuel : ℕ) (inp : Buf) (o : Outcome (Request Buf × Scope))
      → (do r ← (do (req, scope) ← o; ret (finished inp req scope)); again e (feed e d fuel) r)
        ≡ (do (req, scope) ← o; ret (finished inp req scope))
  unfolding again
  nothing_again fuel inp (ret x) = refl
  nothing_again fuel inp panic = refl

  -- Behind the chunks that are buffered, a stream of chunks.
  feed-stream :
      (ps : List Piece) (limit : ℕ) (got last rest : Bytes) (m : Req) (inp : Buf)
      (req : Request Buf) (scope : Scope)
      → All (IsChunk e.parse_chunk_size) ps
      → SizeLine e.parse_chunk_size last 0
      → length got + length (payloads ps) ≤ limit
      → limit + 2 < 2 ^ 64
      → contents inp ≡ (got ++ separator got) ++ stream ps last rest
      → (inp' : Buf) × (feed e d
            (rounds ps)
            (buffer_chunked limit (length got) 0)
            m
            inp
            (resumed e req)
            scope
          ≡ (do
            (req', scope') ← e.response_received m (got ++ payloads ps) (resumed e req) scope
            ret (finished inp' req' scope')))
        × (contents inp' ≡ rest)
  feed-stream [] limit got last rest m inp req scope a l fits word c =
      let (inp', ends, holds) =
        last_round e laws limit got last rest m inp (resumed e req) scope l c in
      (
        inp',
        rw (append-nil got) (
            feed_step 0 (buffer_chunked limit (length got) 0) m inp (resumed e req) scope _ _
              (expectation_of_size limit (length got))
              (expect_line got last rest inp l.no_cr l.short c)
            ∙ rw ends (nothing_again 0 inp' (e.response_received m got (resumed e req) scope))),
        holds,
      )
  feed-stream (p ∷ ps) limit got last rest m inp req scope a l fits word c =
      let size = length-append p.payload (payloads ps) in
      let (k, size_is) = pos_suc (length p.payload) a.0.not_empty in
      let (inp', two, holds) =
        feed_chunk (rounds ps) limit k got p.line p.payload (stream ps last rest) m inp
          (resumed e req) scope (rw size_is at a.0.size_line) size_is (omega arith) word c in
      let got' = got ++ p.payload in
      let behind : contents inp' ≡ (got' ++ separator got') ++ stream ps last rest =
        holds
        ∙ rw (separator_pos got' (omega (arith, length-append got p.payload, a.0.not_empty)))
            (simp append_assoc) in
      let grown : length got + suc k ≡ length got' = omega (arith, length-append got p.payload) in
      let (end, rest_of, left) =
        feed-stream ps limit got' last rest m inp' req scope a.1 l
          (omega (arith, length-append got p.payload)) word behind in
      (end, two ∙ rw (grown, ← (append_assoc got p.payload (payloads ps))) rest_of, left)

  -- A buffered chunked response is decoded: from an input that holds chunks, each with a size line
  -- that httparse reads as the size of its data, a last size line of 0 and anything behind it, the
  -- data adding up to no more than the limit, and the limit with a line end a u64, the rounds of
  -- `bytes_read` end with one call of `response_received` on the data of all chunks, in order and
  -- with nothing else, then with `finish`, and what stands behind the last size line is left in
  -- the input.
  pub feed_chunked_response :
      (ps : List Piece) (limit : ℕ) (last rest : Bytes) (m : Req) (inp : Buf) (req : Request Buf)
      (scope : Scope)
      → All (IsChunk e.parse_chunk_size) ps
      → SizeLine e.parse_chunk_size last 0
      → length (payloads ps) ≤ limit
      → limit + 2 < 2 ^ 64
      → contents inp ≡ stream ps last rest
      → (inp' : Buf) × (feed e d (rounds ps) (buffer_chunked limit 0 0) m inp (resumed e req) scope
          ≡ (do
            (req', scope') ← e.response_received m (payloads ps) (resumed e req) scope
            ret (finished inp' req' scope')))
        × (contents inp' ≡ rest)
  feed_chunked_response ps limit last rest m inp req scope a l fits word c =
      feed-stream ps limit [] last rest m inp req scope a l (omega arith) word c
