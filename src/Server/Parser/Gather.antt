-- ===== src/Server/Parser/Gather.antt =====
-- server/parser.rs, `bytes_read` on a chunked body that is handed over in parts: its rounds.
mod Lines
pub use Lines.{size_round}
use Lines.{read_progressive_size-line, cut_line, progressive_end_whole}
use rotor_http.Prelude.{
  minus_two, ℕ, suc, ◌+◌, ◌^◌, ◌<◌, ◌≡◌, refl, sym, ap, ◌∙◌, false, Bool-cases, inl, inr,
  if◌then◌else◌, ltb, [], ◌++◌, append_assoc, ◌∷◌, append-nil, arith, Bytes, crlf, length,
  length-append, drop_prefix, Option, none, some, ==_iff, ret, add_u64_fits, sub_u64_fits, sub_u64,
  slice_middle,
}
use rotor_http.Buffer.{BufferLaws}
use rotor_http.Message.{Message}
use rotor_http.Stream.{ChunkSize, SizeLine, contents_without}
use rotor_http.Server.Parser.Reading.{
  goes_on, receive_chunk, and_then, read_progressive_size, progressive_size, progressive_end,
  read_progressive_chunk, round,
}
use rotor_http.Server.Parser.Trickle.{Collects}
use rotor_http.Server.Parser.{progressive_chunked}
use rotor_http.Server.Protocol.{Env}

-- How much waits for the handler behind a whole chunk: all of it, or nothing if it was handed over.
abbrev pub waiting : ℕ → ℕ → ℕ
waiting hint n = if ltb n hint then n else 0

module _ (e : Env) (laws : BufferLaws e.ops) (c : Collects e) where
  open e use {Buf, Machine, Seed, Scope, ops}
  open ops use {contents, remove_range, consume}
  open laws use {contents-consume}

  -- The round of a whole chunk, which may hand over what waits with it.
  pub chunk_round :
      (hint k : ℕ) (got payload rest : Bytes) (m : Machine) (seed : Seed) (inp : Buf)
      (resp : Message Buf) (scope : Scope)
      → length payload ≡ suc k
      → length got + suc k + 2 < 2 ^ 64
      → contents inp ≡ got ++ (payload ++ (crlf ++ rest))
      → (got' : Bytes) × (inp' : Buf) × (scope' : Scope) × (round e
            (progressive_chunked hint (length got) (suc k))
            (length got + suc k + 2)
            (some m)
            seed
            inp
            resp
            scope
          ≡ ret
              (goes_on (some m) (some (progressive_chunked hint (length got') 0)) inp' resp scope'))
        × (contents inp' ≡ got' ++ rest)
        × (c.taken scope' ++ got' ≡ c.taken scope ++ (got ++ payload))
        × (length got' ≡ waiting hint (length got + suc k))
  unfolding round read_progressive_chunk receive_chunk and_then
  chunk_round hint k got payload rest m seed inp resp scope size word holds =
      let n = length got + suc k in
      let len : length (got ++ payload) ≡ n = omega (arith, length-append got payload) in
      let (inp', ends, left) =
        progressive_end_whole e laws k got payload rest inp size word holds in
      let taken : sub_u64 n (length got) ≡ ret (suc k) =
        sub_u64_fits n (length got) (omega arith) ∙ ap (λ x. ret x) (omega arith) in
      let none_left : sub_u64 (suc k) (suc k) ≡ ret 0 =
        sub_u64_fits (suc k) (suc k) (omega arith) ∙ ap (λ x. ret x) (omega arith) in
      elim (Bool-cases (ltb n hint)) [
        | inl waits ↦ (
          got ++ payload,
          inp',
          scope,
          rw (ends, taken, none_left, waits, len),
          left,
          refl,
          rw (waits, len),
        )
        | inr full ↦ (
          [],
          consume inp' n,
          c.keep m (got ++ payload) scope,
          rw (
            ends,
            taken,
            none_left,
            full,
            left,
            slice_middle 0 n [] (got ++ payload) rest refl
                (omega (arith, length-append got payload)),
            c.on_chunk m (got ++ payload) resp scope,
          ),
          contents-consume inp' n (rw left (omega (arith, length-append (got ++ payload) rest)))
              ∙ rw left (drop_prefix n (got ++ payload) rest (sym len)),
          append-nil (c.taken (c.keep m (got ++ payload) scope))
              ∙ c.taken-keep m (got ++ payload) scope,
          rw full refl,
        )
      ]

  -- The last size line: what waits is handed over, and the request ends.
  pub last_round :
      (hint : ℕ) (got line rest : Bytes) (m : Machine) (seed : Seed) (inp : Buf)
      (resp : Message Buf) (scope : Scope)
      → SizeLine e.parse_chunk_size line 0
      → contents inp ≡ got ++ (line ++ (crlf ++ rest))
      → (inp' : Buf) × (scope' : Scope) × (round e
            (progressive_chunked hint (length got) 0)
            (length line)
            (some m)
            seed
            inp
            resp
            scope
          ≡ ret (goes_on none none inp' resp scope'))
        × (contents inp' ≡ rest)
        × (c.taken scope' ≡ c.taken scope ++ got)
  unfolding round progressive_size receive_chunk and_then
  last_round hint got line rest m seed inp resp scope l holds =
      let line_end = length got + length line + 2 in
      let cut = remove_range inp (length got) line_end in
      let left = cut_line e laws got line rest inp holds in
      let read : round e (progressive_chunked hint (length got) 0) (length line) (some m) seed inp
            resp scope
          ≡ progressive_size e (ChunkSize.complete l.index 0) hint (length got) line_end (some m)
              seed inp resp scope =
        read_progressive_size-line e laws hint got line rest (some m) seed inp resp scope holds
        ∙ rw (l.reads) in
      let behind : contents (consume cut (length got)) ≡ rest =
        contents-consume cut (length got) (rw left (omega (arith, length-append got rest)))
        ∙ rw left (drop_prefix (length got) got rest refl) in
      elim (Bool-cases (ltb 0 (length got))) [
        | inl waits ↦ (
          consume cut (length got),
          c.close m (c.keep m got scope),
          read
              ∙ rw (
                waits,
                left,
                slice_middle 0 (length got) [] got rest refl (omega arith),
                c.on_chunk m got resp scope,
                c.on_end m resp (c.keep m got scope),
              ),
          behind,
          c.taken-close m (c.keep m got scope) ∙ c.taken-keep m got scope,
        )
        | inr nothing ↦ (
          consume cut (length got),
          c.close m scope,
          read ∙ rw (nothing, c.on_end m resp scope),
          behind,
          c.taken-close m scope ∙ rw (empty got nothing) (sym (append-nil (c.taken scope))),
        )
      ]
    where
      empty : (s : Bytes) → ltb 0 (length s) ≡ false → s ≡ []
      empty [] h = refl
      empty (x ∷ s) h = absurd (ground (arith, h))
