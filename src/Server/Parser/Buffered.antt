-- ===== src/Server/Parser/Buffered.antt =====
-- A buffered chunked body: the rounds put together, over all chunks of a stream.
use rotor_http.Prelude.{
  ℕ, suc, ◌+◌, ◌^◌, ◌≤◌, ◌<◌, ◌≡◌, ◌≢◌, refl, ◌∙◌, false, ◌==◌, List, [], ◌∷◌, ◌++◌, append_assoc,
  append-nil, arith, Bytes, crlf, All, length, length-append, Option, none, some, Outcome, ret,
  panic, ◌>>=◌, add_u64_fits,
}
use rotor_http.Buffer.{BufferLaws}
use rotor_http.Message.{Message}
use rotor_http.Server.Parser.Chunks.{size_round, chunk_round, last_round}
use rotor_http.Server.Parser.Decode.{
  Piece, stream, payloads, SizeLine, IsChunk, Delivery, again, delivered, feed, separator,
  consumed-length,
}
use rotor_http.Server.Parser.Reading.{goes_on, round}
use rotor_http.Server.Parser.{
  BodyProgress, buffer_chunked, Expectation, bytes, delimiter, body_expectation, consumed,
  max_chunk_head,
}
use rotor_http.Stream.{rounds, pos_suc, separator_pos}
use rotor_http.Server.Protocol.{Env}

expectation_of_size :
    (limit off : ℕ)
    → body_expectation (buffer_chunked limit off 0)
      ≡ ret (delimiter (consumed off) crlf (consumed off + max_chunk_head))
unfolding body_expectation
expectation_of_size limit off = refl

expectation_of_chunk :
    (limit off k : ℕ)
    → off + suc k + 2 < 2 ^ 64
    → body_expectation (buffer_chunked limit off (suc k)) ≡ ret (bytes (off + suc k + 2))
unfolding body_expectation
expectation_of_chunk limit off k h =
    let more : (suc k == 0) ≡ false = ground arith in
    rw (more, add_u64_fits off (suc k) (omega arith), add_u64_fits (off + suc k) 2 h)

module _ (e : Env) (laws : BufferLaws e.ops) (d : Delivery) where
  open e use {Buf, Machine, Seed, Scope, Time, ops}
  open ops use {contents}

  pub feed_step :
      (fuel : ℕ) (seed : Seed) (p : BodyProgress) (machine : Option Machine) (inp : Buf)
      (resp : Message Buf) (scope : Scope) (exp : Expectation) (end : ℕ)
      → body_expectation p ≡ ret exp
      → d.deliver exp (contents inp) ≡ some end
      → feed e d (suc fuel) seed p machine inp resp scope
        ≡ (do r ← round e p end machine seed inp resp scope; again e d (feed e d fuel seed) r)
  unfolding feed delivered
  feed_step fuel seed p machine inp resp scope exp end x y = rw (x, y)

  expect_line :
      (limit : ℕ) (got line rest : Bytes) (inp : Buf)
      → All (λ c. c ≢ 13) line
      → length line + 2 ≤ max_chunk_head
      → contents inp ≡ (got ++ separator got) ++ (line ++ (crlf ++ rest))
      → d.deliver
          (delimiter (consumed (length got)) crlf (consumed (length got) + max_chunk_head))
          (contents inp)
        ≡ some (length line)
  expect_line limit got line rest inp no_cr short c = rw c (
      d.deliver_line (got ++ separator got) line rest (consumed (length got)) _
        (consumed-length got) no_cr (omega arith))

  -- Two rounds for a chunk: its size line, and its data.
  feed_chunk :
      (fuel limit k : ℕ) (got line payload rest : Bytes) (machine : Option Machine) (seed : Seed)
      (inp : Buf) (resp : Message Buf) (scope : Scope)
      → SizeLine e.parse_chunk_size line (suc k)
      → length payload ≡ suc k
      → length got + suc k ≤ limit
      → limit + 2 < 2 ^ 64
      → contents inp ≡ (got ++ separator got) ++ (line ++ (crlf ++ (payload ++ (crlf ++ rest))))
      → (inp' : Buf) × (feed e d
            (suc (suc fuel))
            seed
            (buffer_chunked limit (length got) 0)
            machine
            inp
            resp
            scope
          ≡ feed e d fuel seed
              (buffer_chunked limit (length got + suc k) 0)
              machine
              inp'
              resp
              scope)
        × (contents inp' ≡ got ++ (payload ++ (crlf ++ rest)))
  unfolding again
  feed_chunk fuel limit k got line payload rest machine seed inp resp scope l size fits word c =
      let (inp', first, holds) =
        size_round e laws limit k got line (payload ++ (crlf ++ rest)) machine seed inp resp scope l
          fits (omega arith) c in
      let there : length got + suc k + 2 ≤ length (contents inp') = rw holds (
        omega (
          arith,
          length-append got (payload ++ (crlf ++ rest)),
          length-append payload (crlf ++ rest),
        )) in
      (
        inp',
        feed_step (suc fuel) seed (buffer_chunked limit (length got) 0) machine inp resp scope _ _
              (expectation_of_size limit (length got))
              (expect_line limit got line (payload ++ (crlf ++ rest)) inp l.no_cr l.short c)
            ∙ rw first (
                feed_step fuel seed (buffer_chunked limit (length got) (suc k)) machine inp' resp
                  scope _ _ (expectation_of_chunk limit (length got) k (omega arith))
                  (d.deliver_bytes (length got + suc k + 2) (contents inp') there)
                ∙ rw (chunk_round e laws limit (length got) k machine seed inp' resp scope)),
        holds,
      )

  -- Where the handler has taken the body, no round follows.
  nothing_again :
      (fuel : ℕ) (seed : Seed) (inp : Buf) (o : Outcome (Option Machine × Message Buf × Scope))
      → (do
        r ← (do (m, resp, scope) ← o; ret (goes_on m none inp resp scope))
        again e d (feed e d fuel seed) r)
        ≡ (do (m, resp, scope) ← o; ret (goes_on m none inp resp scope))
  unfolding again
  nothing_again fuel seed inp (ret x) = refl
  nothing_again fuel seed inp panic = refl

  feed_last :
      (fuel limit : ℕ) (got line rest : Bytes) (m : Machine) (seed : Seed) (inp : Buf)
      (resp : Message Buf) (scope : Scope)
      → SizeLine e.parse_chunk_size line 0
      → contents inp ≡ (got ++ separator got) ++ (line ++ (crlf ++ rest))
      → (inp' : Buf) × (feed e d
            (suc fuel)
            seed
            (buffer_chunked limit (length got) 0)
            (some m)
            inp
            resp
            scope
          ≡ (do
            (m', resp', scope') ← e.request_received m got resp scope
            ret (goes_on m' none inp' resp' scope')))
        × (contents inp' ≡ rest)
  feed_last fuel limit got line rest m seed inp resp scope l c =
      let (inp', last, holds) = last_round e laws limit got line rest m seed inp resp scope l c in
      (
        inp',
        feed_step fuel seed (buffer_chunked limit (length got) 0) (some m) inp resp scope _ _
              (expectation_of_size limit (length got))
              (expect_line limit got line rest inp l.no_cr l.short c)
            ∙ rw last (nothing_again fuel seed inp' (e.request_received m got resp scope)),
        holds,
      )

  -- Behind the chunks that are buffered, a stream of chunks.
  feed-stream :
      (ps : List Piece) (limit : ℕ) (got last rest : Bytes) (m : Machine) (seed : Seed) (inp : Buf)
      (resp : Message Buf) (scope : Scope)
      → All (IsChunk e.parse_chunk_size) ps
      → SizeLine e.parse_chunk_size last 0
      → length got + length (payloads ps) ≤ limit
      → limit + 2 < 2 ^ 64
      → contents inp ≡ (got ++ separator got) ++ stream ps last rest
      → (inp' : Buf) × (feed e d
            (rounds ps)
            seed
            (buffer_chunked limit (length got) 0)
            (some m)
            inp
            resp
            scope
          ≡ (do
            (m', resp', scope') ← e.request_received m (got ++ payloads ps) resp scope
            ret (goes_on m' none inp' resp' scope')))
        × (contents inp' ≡ rest)
  feed-stream [] limit got last rest m seed inp resp scope a l fits word c =
      rw (append-nil got) (feed_last 0 limit got last rest m seed inp resp scope l c)
  feed-stream (p ∷ ps) limit got last rest m seed inp resp scope a l fits word c =
      let size = length-append p.payload (payloads ps) in
      let (k, size_is) = pos_suc (length p.payload) a.0.not_empty in
      let (inp', two, holds) =
        feed_chunk (rounds ps) limit k got p.line p.payload (stream ps last rest) (some m) seed inp
          resp scope (rw size_is at a.0.size_line) size_is (omega arith) word c in
      let got' = got ++ p.payload in
      let behind : contents inp' ≡ (got' ++ separator got') ++ stream ps last rest =
        holds
        ∙ rw (separator_pos got' (omega (arith, length-append got p.payload, a.0.not_empty)))
            (simp append_assoc) in
      let grown : length got + suc k ≡ length got' = omega (arith, length-append got p.payload) in
      let (end, rest_of, left) =
        feed-stream ps limit got' last rest m seed inp' resp scope a.1 l
          (omega (arith, length-append got p.payload)) word behind in
      (end, two ∙ rw (grown, ← (append_assoc got p.payload (payloads ps))) rest_of, left)

  -- A buffered chunked body is decoded: from an input that holds chunks, each with a size line that
  -- httparse reads as the size of its data, a last size line of 0 and anything behind it, the data
  -- adding up to no more than the limit, and the limit with a line end a u64, the rounds of `bytes_read` end with one call of
  -- `request_received` on the data of all chunks, in order and with nothing else, and what stands
  -- behind the last size line is left in the input.
  pub feed_buffered_chunks :
      (ps : List Piece) (limit : ℕ) (last rest : Bytes) (m : Machine) (seed : Seed) (inp : Buf)
      (resp : Message Buf) (scope : Scope)
      → All (IsChunk e.parse_chunk_size) ps
      → SizeLine e.parse_chunk_size last 0
      → length (payloads ps) ≤ limit
      → limit + 2 < 2 ^ 64
      → contents inp ≡ stream ps last rest
      → (inp' : Buf) × (feed e d (rounds ps) seed (buffer_chunked limit 0 0) (some m) inp resp scope
          ≡ (do
            (m', resp', scope') ← e.request_received m (payloads ps) resp scope
            ret (goes_on m' none inp' resp' scope')))
        × (contents inp' ≡ rest)
  feed_buffered_chunks ps limit last rest m seed inp resp scope a l fits word c =
      feed-stream ps limit [] last rest m seed inp resp scope a l (omega arith) word c
