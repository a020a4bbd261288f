-- ===== src/Client/Parser/Chunks.antt =====
-- The rounds of `bytes_read` on a buffered chunked response, one by one.
use rotor_http.Prelude.{
  minus_two, ℕ, zero, suc, ◌+◌, ◌^◌, ◌≤◌, ◌<◌, ◌≡◌, refl, ◌∙◌, [], ◌∷◌, ◌++◌, append_assoc, arith,
  Bytes, crlf, length, length-append, drop_prefix, Option, none, some, le→ltb, ==_iff, Outcome, ret,
  panic, ◌>>=◌, add_u64_fits, sub_u64_fits, slice_middle,
}
use rotor_http.Buffer.{BufferLaws}
use rotor_http.Client.Parser.Reading.{
  Round, goes_on, finished, closed, receive, read_buffer_size, read_buffer_chunk, buffered_size,
  round,
}
use rotor_http.Client.Parser.{BodyProgress, buffer_chunked, body_expectation, consumed}
use rotor_http.Client.Protocol.{Env}
use rotor_http.Client.Request.{Request}
use rotor_http.Stream.{Delivery, SizeLine, separator, contents_without}

pub consumed-length : (got : Bytes) → consumed (length got) ≡ length (got ++ separator got)
unfolding consumed
consumed-length [] = refl
consumed-length (c ∷ s) = ground (arith, length-append s crlf)

module _ (e : Env) where
  open e use {Buf, Req, Scope, ops}
  open ops use {contents}

  -- A new event finds the message of the request, and a new `None` beside it.
  abbrev pub resumed : Request Buf → Request Buf
  resumed req = record { message = req.message; is_head = none }

  -- What a round is followed by, while the body is not whole: another one. A handler that gives up
  -- is `unimplemented!()`.
  unfoldable pub again :
      (BodyProgress → Req → Buf → Request Buf → Scope → Outcome (Round e))
      → Round e
      → Outcome (Round e)
  again more (goes_on (some m) p inp req scope) = more p m inp (resumed req) scope
  again more (goes_on none p inp req scope) = panic
  again more (finished inp req scope) = ret (finished inp req scope)
  again more (closed inp req scope) = ret (closed inp req scope)

  unfoldable pub delivered :
      (Round e → Outcome (Round e))
      → BodyProgress
      → Req
      → Buf
      → Request Buf
      → Scope
      → Option ℕ
      → Outcome (Round e)
  delivered more p machine inp req scope none = ret (goes_on (some machine) p inp req scope)
  delivered more p machine inp req scope (some end) = do
    r ← round e p end machine inp req scope
    more r

  -- Rounds as long as the transport has what is asked for.
  unfoldable pub feed :
      Delivery → ℕ → BodyProgress → Req → Buf → Request Buf → Scope → Outcome (Round e)
  unfolding again delivered
  feed d zero p machine inp req scope = ret (goes_on (some machine) p inp req scope)
  feed d (suc fuel) p machine inp req scope = do
    exp ← body_expectation p
    delivered (again (feed d fuel)) p machine inp req scope (d.deliver exp (contents inp))

module _ (e : Env) (laws : BufferLaws e.ops) where
  open e use {Buf, Req, Scope, ops}
  open ops use {contents, remove_range, consume}
  open laws use {contents-consume}

  -- Without the size line and the line end before it.
  cut_line :
      (inp : Buf) (got line rest : Bytes)
      → contents inp ≡ (got ++ separator got) ++ (line ++ (crlf ++ rest))
      → contents (remove_range inp (length got) (consumed (length got) + length line + 2))
        ≡ got ++ rest
  cut_line inp got line rest c =
      contents_without ops laws inp got (separator got ++ (line ++ crlf)) rest (length got)
        (consumed (length got) + length line + 2) (c ∙ simp append_assoc) refl
        (omega (
          arith,
          consumed-length got,
          length-append got (separator got),
          length-append (separator got) (line ++ crlf),
          length-append line crlf,
        ))

  read_buffer_size-line :
      (limit : ℕ) (got line rest : Bytes) (m : Req) (inp : Buf) (req : Request Buf) (scope : Scope)
      → contents inp ≡ (got ++ separator got) ++ (line ++ (crlf ++ rest))
      → read_buffer_size e limit (length got) (length line) m inp req scope
        ≡ buffered_size e
            (e.parse_chunk_size (line ++ crlf))
            limit
            (length got)
            (length line)
            m
            inp
            req
            scope
  unfolding read_buffer_size
  read_buffer_size-line limit got line rest m inp req scope c =
      let found =
        slice_middle (consumed (length got)) (consumed (length got) + length line + 2)
          (got ++ separator got) (line ++ crlf) rest (consumed-length got)
          (omega (arith, consumed-length got, length-append line crlf)) in
      rw (c, ← (append_assoc line crlf rest), found)

  -- A size line within the limit: the chunk's size is remembered, and the line is cut out.
  pub size_round :
      (limit k : ℕ) (got line rest : Bytes) (m : Req) (inp : Buf) (req : Request Buf)
      (scope : Scope)
      → SizeLine e.parse_chunk_size line (suc k)
      → length got + suc k ≤ limit
      → limit < 2 ^ 64
      → contents inp ≡ (got ++ separator got) ++ (line ++ (crlf ++ rest))
      → (inp' : Buf) × (round e (buffer_chunked limit (length got) 0) (length line) m inp req scope
          ≡ ret (goes_on (some m) (buffer_chunked limit (length got) (suc k)) inp' req scope))
        × (contents inp' ≡ got ++ rest)
  unfolding round buffered_size
  size_round limit k got line rest m inp req scope l fits word c = (
    remove_range inp (length got) (consumed (length got) + length line + 2),
    read_buffer_size-line limit got line rest m inp req scope c
        ∙ rw (
          l.reads,
          add_u64_fits (length got) (suc k) (omega arith),
          le→ltb limit (length got + suc k) fits,
        ),
    cut_line inp got line rest c,
  )

  -- A whole chunk: it counts as buffered, and nothing moves.
  pub chunk_round :
      (limit off k : ℕ) (m : Req) (inp : Buf) (req : Request Buf) (scope : Scope)
      → round e (buffer_chunked limit off (suc k)) (off + suc k + 2) m inp req scope
        ≡ ret (goes_on (some m) (buffer_chunked limit (off + suc k) 0) inp req scope)
  unfolding round read_buffer_chunk
  chunk_round limit off k m inp req scope = rw (
    sub_u64_fits (off + suc k + 2) 2 (omega arith),
    minus_two (off + suc k),
    (==_iff (off + suc k) (off + suc k)).1 refl,
  )

  -- The last size line: the handler is given what is buffered, and it leaves the buffer.
  pub last_round :
      (limit : ℕ) (got line rest : Bytes) (m : Req) (inp : Buf) (req : Request Buf) (scope : Scope)
      → SizeLine e.parse_chunk_size line 0
      → contents inp ≡ (got ++ separator got) ++ (line ++ (crlf ++ rest))
      → (inp' : Buf) × (round e (buffer_chunked limit (length got) 0) (length line) m inp req scope
          ≡ (do
            (req', scope') ← e.response_received m got req scope
            ret (finished inp' req' scope')))
        × (contents inp' ≡ rest)
  unfolding round buffered_size receive
  last_round limit got line rest m inp req scope l c =
      let left = remove_range inp (length got) (consumed (length got) + length line + 2) in
      let holds : contents left ≡ got ++ rest = cut_line inp got line rest c in
      (
        consume left (length got),
        read_buffer_size-line limit got line rest m inp req scope c
            ∙ rw (l.reads, holds, slice_middle 0 (length got) [] got rest refl (omega arith)) refl,
        contents-consume left (length got) (rw holds (omega (arith, length-append got rest)))
            ∙ rw holds (drop_prefix (length got) got rest refl),
      )
