-- ===== src/Server/Parser/Gather/Lines.antt =====
-- server/parser.rs, `bytes_read` on a chunked body that is handed over in parts: the lines that are cut
-- out.
use rotor_http.Prelude.{
  minus_two, ℕ, suc, ◌+◌, ◌^◌, ◌<◌, ◌≡◌, refl, sym, ◌∙◌, ◌++◌, append_assoc, arith, Bytes, crlf,
  length, length-append, Option, some, ==_iff, ret, add_u64_fits, sub_u64_fits, slice_middle,
}
use rotor_http.Buffer.{BufferLaws}
use rotor_http.Message.{Message}
use rotor_http.Stream.{SizeLine, contents_without}
use rotor_http.Server.Parser.Reading.{
  goes_on, read_progressive_size, progressive_size, progressive_end, round,
}
use rotor_http.Server.Parser.{progressive_chunked}
use rotor_http.Server.Protocol.{Env}

module _ (e : Env) (laws : BufferLaws e.ops) where
  open e use {Buf, Machine, Seed, Scope, Time, ops}
  open ops use {contents, remove_range, consume}
  open laws use {contents-remove_range, contents-consume}

  pub read_progressive_size-line :
      (hint : ℕ) (got line rest : Bytes) (machine : Option Machine) (seed : Seed) (inp : Buf)
      (resp : Message Buf) (scope : Scope)
      → contents inp ≡ got ++ (line ++ (crlf ++ rest))
      → read_progressive_size e hint (length got) (length line) machine seed inp resp scope
        ≡ progressive_size e
            (e.parse_chunk_size (line ++ crlf))
            hint
            (length got)
            (length got + length line + 2)
            machine
            seed
            inp
            resp
            scope
  unfolding read_progressive_size
  read_progressive_size-line hint got line rest machine seed inp resp scope c =
      let found =
        slice_middle (length got) (length got + length line + 2) got (line ++ crlf) rest refl
          (omega (arith, length-append line crlf)) in
      rw (c, ← (append_assoc line crlf rest), found)

  -- Without the size line.
  pub cut_line :
      (got line rest : Bytes) (inp : Buf)
      → contents inp ≡ got ++ (line ++ (crlf ++ rest))
      → contents (remove_range inp (length got) (length got + length line + 2)) ≡ got ++ rest
  cut_line got line rest inp c =
      contents_without ops laws inp got (line ++ crlf) rest (length got)
        (length got + length line + 2) (c ∙ simp append_assoc) refl
        (omega (arith, length-append line crlf))

  -- A size line: the chunk's size is remembered, and the line is cut out.
  pub size_round :
      (hint k : ℕ) (got line rest : Bytes) (machine : Option Machine) (seed : Seed) (inp : Buf)
      (resp : Message Buf) (scope : Scope)
      → SizeLine e.parse_chunk_size line (suc k)
      → contents inp ≡ got ++ (line ++ (crlf ++ rest))
      → (inp' : Buf) × (round e
            (progressive_chunked hint (length got) 0)
            (length line)
            machine
            seed
            inp
            resp
            scope
          ≡ ret (
              goes_on machine
                (some (progressive_chunked hint (length got) (suc k)))
                inp'
                resp
                scope))
        × (contents inp' ≡ got ++ rest)
  unfolding round progressive_size
  size_round hint k got line rest machine seed inp resp scope l c = (
    remove_range inp (length got) (length got + length line + 2),
    read_progressive_size-line hint got line rest machine seed inp resp scope c ∙ rw (l.reads),
    cut_line got line rest inp c,
  )

  -- The line end of a whole chunk is cut out.
  pub progressive_end_whole :
      (k : ℕ) (got payload rest : Bytes) (inp : Buf)
      → length payload ≡ suc k
      → length got + suc k + 2 < 2 ^ 64
      → contents inp ≡ got ++ (payload ++ (crlf ++ rest))
      → (inp' : Buf) × (progressive_end e (length got) (suc k) (length got + suc k + 2) inp
          ≡ ret (length got + suc k, inp'))
        × (contents inp' ≡ (got ++ payload) ++ rest)
  unfolding progressive_end
  progressive_end_whole k got payload rest inp size word c =
      let n = length got + suc k in
      (
        remove_range inp n (n + 2),
        rw (
          add_u64_fits (length got) (suc k) (omega arith),
          sub_u64_fits (n + 2) 2 (omega arith),
          minus_two n,
          (==_iff n n).1 refl,
        ),
        contents_without ops laws inp (got ++ payload) crlf rest n (n + 2)
            (c ∙ sym (append_assoc got payload (crlf ++ rest)))
            (omega (arith, length-append got payload)) (omega (arith, length-append got payload)),
      )
