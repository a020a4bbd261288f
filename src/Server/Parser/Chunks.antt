-- ===== src/Server/Parser/Chunks.antt =====
-- A buffered chunked body is handed to the handler whole: the proof, round by round.
use rotor_http.Prelude.{
  minus_two, ℕ, suc, ◌+◌, ◌^◌, ◌≤◌, ◌<◌, ◌≡◌, refl, ◌∙◌, [], ◌++◌, append_assoc, arith, Bytes, crlf,
  length, length-append, drop_prefix, Option, none, some, le→ltb, ==_iff, ret, ◌>>=◌, add_u64_fits,
  sub_u64_fits, slice_middle,
}
use rotor_http.Buffer.{BufferLaws}
use rotor_http.Message.{Message}
use rotor_http.Stream.{SizeLine, separator, contents_without}
use rotor_http.Server.Parser.Decode.{consumed-length}
use rotor_http.Server.Parser.Reading.{
  goes_on, receive, read_buffer_size, read_buffer_chunk, buffered_size, round,
}
use rotor_http.Server.Parser.{buffer_chunked, consumed}
use rotor_http.Server.Protocol.{Env}

module _ (e : Env) (laws : BufferLaws e.ops) where
  open e use {Buf, Machine, Seed, Scope, Time, ops}
  open ops use {contents, remove_range, consume}
  open laws use {contents-remove_range, contents-consume}

  -- The round of a size line finds the line behind what is buffered.
  read_buffer_size-line :
      (limit : ℕ) (got line rest : Bytes) (machine : Option Machine) (seed : Seed) (inp : Buf)
      (resp : Message Buf) (scope : Scope)
      → contents inp ≡ (got ++ separator got) ++ (line ++ (crlf ++ rest))
      → read_buffer_size e limit (length got) (length line) machine seed inp resp scope
        ≡ buffered_size e
            (e.parse_chunk_size (line ++ crlf))
            limit
            (length got)
            (consumed (length got) + length line + 2)
            machine
            seed
            inp
            resp
            scope
  unfolding read_buffer_size
  read_buffer_size-line limit got line rest machine seed inp resp scope c =
      let found =
        slice_middle (consumed (length got)) (consumed (length got) + length line + 2)
          (got ++ separator got) (line ++ crlf) rest (consumed-length got)
          (omega (arith, consumed-length got, length-append line crlf)) in
      rw (c, ← (append_assoc line crlf rest), found)

  -- A size line within the limit: the chunk's size is remembered, and the line is cut out.
  pub size_round :
      (limit k : ℕ) (got line rest : Bytes) (machine : Option Machine) (seed : Seed) (inp : Buf)
      (resp : Message Buf) (scope : Scope)
      → SizeLine e.parse_chunk_size line (suc k)
      → length got + suc k ≤ limit
      → limit < 2 ^ 64
      → contents inp ≡ (got ++ separator got) ++ (line ++ (crlf ++ rest))
      → (inp' : Buf) × (round e
            (buffer_chunked limit (length got) 0)
            (length line)
            machine
            seed
            inp
            resp
            scope
          ≡ ret
              (goes_on machine (some (buffer_chunked limit (length got) (suc k))) inp' resp scope))
        × (contents inp' ≡ got ++ rest)
  unfolding round buffered_size
  size_round limit k got line rest machine seed inp resp scope l fits word c = (
    remove_range inp (length got) (consumed (length got) + length line + 2),
    read_buffer_size-line limit got line rest machine seed inp resp scope c
        ∙ rw (
          l.reads,
          add_u64_fits (length got) (suc k) (omega arith),
          le→ltb limit (length got + suc k) fits,
        ),
    contents_without ops laws inp got (separator got ++ (line ++ crlf)) rest (length got)
        (consumed (length got) + length line + 2) (c ∙ simp append_assoc) refl
        (omega (
          arith,
          consumed-length got,
          length-append got (separator got),
          length-append (separator got) (line ++ crlf),
          length-append line crlf,
        )),
  )

  -- A whole chunk: it counts as buffered, and nothing moves.
  pub chunk_round :
      (limit off k : ℕ) (machine : Option Machine) (seed : Seed) (inp : Buf) (resp : Message Buf)
      (scope : Scope)
      → round e (buffer_chunked limit off (suc k)) (off + suc k + 2) machine seed inp resp scope
        ≡ ret (goes_on machine (some (buffer_chunked limit (off + suc k) 0)) inp resp scope)
  unfolding round read_buffer_chunk
  chunk_round limit off k machine seed inp resp scope = rw (
    sub_u64_fits (off + suc k + 2) 2 (omega arith),
    minus_two (off + suc k),
    (==_iff (off + suc k) (off + suc k)).1 refl,
  )

  -- The last size line: the handler is given what is buffered, and it leaves the buffer.
  pub last_round :
      (limit : ℕ) (got line rest : Bytes) (m : Machine) (seed : Seed) (inp : Buf)
      (resp : Message Buf) (scope : Scope)
      → SizeLine e.parse_chunk_size line 0
      → contents inp ≡ (got ++ separator got) ++ (line ++ (crlf ++ rest))
      → (inp' : Buf) × (round e
            (buffer_chunked limit (length got) 0)
            (length line)
            (some m)
            seed
            inp
            resp
            scope
          ≡ (do
            (m', resp', scope') ← e.request_received m got resp scope
            ret (goes_on m' none inp' resp' scope')))
        × (contents inp' ≡ rest)
  unfolding round buffered_size receive
  last_round limit got line rest m seed inp resp scope l c =
      let line_end = consumed (length got) + length line + 2 in
      let left = remove_range inp (length got) line_end in
      let holds : contents left ≡ got ++ rest =
        contents_without ops laws inp got (separator got ++ (line ++ crlf)) rest (length got)
          line_end (c ∙ simp append_assoc) refl
          (omega (
            arith,
            consumed-length got,
            length-append got (separator got),
            length-append (separator got) (line ++ crlf),
            length-append line crlf,
          )) in
      (
        consume left (length got),
        read_buffer_size-line limit got line rest (some m) seed inp resp scope c
            ∙ rw (l.reads, holds, slice_middle 0 (length got) [] got rest refl (omega arith)) refl,
        contents-consume left (length got) (rw holds (omega (arith, length-append got rest)))
            ∙ rw holds (drop_prefix (length got) got rest refl),
      )
