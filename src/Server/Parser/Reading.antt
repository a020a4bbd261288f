-- ===== src/Server/Parser/Reading.antt =====
-- server/parser.rs, `bytes_read` in the state `ReadingBody`: the body of a request.
use rotor_http.Prelude.{
  ℕ, zero, suc, ◌+◌, ◌-◌, ◌==◌, if◌then◌else◌, ltb, min, length, Option, none, some, Outcome, ret,
  panic, ◌>>=◌, ◌>>◌, assert, add_u64, sub_u64, slice,
}
use rotor_http.Message.{Message}
use rotor_http.Server.Error.{RequestError, payload_too_large, invalid_chunk_size}
use rotor_http.Server.Parser.Head.{Reply, going}
use rotor_http.Server.Parser.{
  BodyProgress, buffer_fixed, buffer_chunked, progressive_fixed, progressive_chunked, ReadBody,
  complete, consumed, intent_flush, intent_body,
}
use rotor_http.Server.Protocol.{Env, Transport, ChunkSize}

module _ (e : Env) where
  open e use {Buf, Machine, Seed, Scope, Time, Addr, ParseError, ops}
  open ops use {contents, consume, remove_range}

  -- `machine.and_then(|m| …)` with a method of the handler.
  unfoldable pub and_then :
      Option Machine
      → (Machine → Message Buf → Scope → Outcome (Option Machine × Message Buf × Scope))
      → Message Buf
      → Scope
      → Outcome (Option Machine × Message Buf × Scope)
  and_then none f resp scope = ret (none, resp, scope)
  and_then (some m) f resp scope = f m resp scope

  -- `machine.map(|m| m.bad_request(…))`
  unfoldable pub reject : Option Machine → Message Buf → Scope → Outcome (Message Buf × Scope)
  reject none resp scope = ret (resp, scope)
  reject (some m) resp scope = e.bad_request m resp scope

  -- The end of a round: the handler, the progress (`none` when the body is whole), what is left
  -- of the input, the response and the scope; or an error page has been sent.
  pub data Round : Type 0 where
    goes_on : Option Machine → Option BodyProgress → Buf → Message Buf → Scope → Round
    refused : Buf → Message Buf → Scope → Round

  -- `bad_request`, an error page, and `return Parser::intent_flush`.
  unfoldable pub refuse :
      RequestError ParseError → Option Machine → Seed → Buf → Message Buf → Scope → Outcome Round
  unfolding reject
  refuse x machine seed inp resp scope = do
    (resp₁, scope₁) ← reject machine resp scope
    (resp₂, scope₂) ← e.emit_error_page x resp₁ seed scope₁
    ret (refused inp resp₂ scope₂)

  -- `machine.and_then(|m| m.request_received(&inp[lo..hi], …))`
  unfoldable pub receive :
      ℕ
      → ℕ
      → Option Machine
      → Buf
      → Message Buf
      → Scope
      → Outcome (Option Machine × Message Buf × Scope)
  unfolding and_then
  receive lo hi machine inp resp scope =
      and_then machine
        (λ m resp scope. do
          piece ← slice lo hi (contents inp)
          e.request_received m piece resp scope)
        resp scope

  -- The same with `request_chunk`.
  unfoldable pub receive_chunk :
      ℕ
      → ℕ
      → Option Machine
      → Buf
      → Message Buf
      → Scope
      → Outcome (Option Machine × Message Buf × Scope)
  unfolding and_then
  receive_chunk lo hi machine inp resp scope =
      and_then machine
        (λ m resp scope. do piece ← slice lo hi (contents inp); e.request_chunk m piece resp scope)
        resp scope

  unfoldable pub read_buffer_fixed : ℕ → Option Machine → Buf → Message Buf → Scope → Outcome Round
  unfolding receive
  read_buffer_fixed x machine inp resp scope = do
    (m, resp', scope') ← receive 0 x machine inp resp scope
    ret (goes_on m none (consume inp x) resp' scope')

  -- The size line of a buffered chunk, which ends at `line_end`, behind the `off` bytes that are
  -- buffered and their line end.
  unfoldable pub buffered_size :
      ChunkSize → ℕ → ℕ → ℕ → Option Machine → Seed → Buf → Message Buf → Scope → Outcome Round
  unfolding receive refuse
  buffered_size (ChunkSize.complete i zero) limit off line_end machine seed inp resp scope = do
    (m, resp', scope') ← receive 0 off machine (remove_range inp off line_end) resp scope
    ret (goes_on m none (consume (remove_range inp off line_end) off) resp' scope')
  buffered_size (ChunkSize.complete i (suc k)) limit off line_end machine seed inp resp scope = do
    total ← add_u64 off (suc k)
    (if ltb limit total
        then refuse payload_too_large machine seed (consume inp line_end) resp scope
        else ret (
            goes_on machine (some (buffer_chunked limit off (suc k)))
              (remove_range inp off line_end) resp scope))
  buffered_size ChunkSize.partial limit off line_end machine seed inp resp scope = panic
  buffered_size ChunkSize.invalid limit off line_end machine seed inp resp scope =
      refuse invalid_chunk_size machine seed (consume inp line_end) resp scope

  unfoldable pub read_buffer_size :
      ℕ → ℕ → ℕ → Option Machine → Seed → Buf → Message Buf → Scope → Outcome Round
  unfolding buffered_size
  read_buffer_size limit off end machine seed inp resp scope =
      let lenstart = consumed off in
      do
        head ← slice lenstart (lenstart + end + 2) (contents inp)
        buffered_size (e.parse_chunk_size head) limit off (lenstart + end + 2) machine seed inp resp
            scope

  -- `debug_assert_eq!(off + bytes, end - 2)`: the chunk is whole, its line end stays in the buffer.
  unfoldable pub read_buffer_chunk :
      ℕ → ℕ → ℕ → ℕ → Option Machine → Buf → Message Buf → Scope → Outcome Round
  read_buffer_chunk limit off left end machine inp resp scope = do
    last ← sub_u64 end 2
    assert (off + left == last)
    ret (goes_on machine (some (buffer_chunked limit (off + left) 0)) inp resp scope)

  unfoldable pub read_progressive_fixed :
      ℕ → ℕ → Option Machine → Buf → Message Buf → Scope → Outcome Round
  unfolding receive_chunk and_then
  read_progressive_fixed hint left machine inp resp scope =
      let real_bytes = min (length (contents inp)) left in
      do
        (m, resp₁, scope₁) ← receive_chunk 0 real_bytes machine inp resp scope
        (if left - real_bytes == 0
            then (do
              (m', resp₂, scope₂) ← and_then m e.request_end resp₁ scope₁
              ret (goes_on m' none (consume inp real_bytes) resp₂ scope₂))
            else ret (
                goes_on m (some (progressive_fixed hint (left - real_bytes)))
                  (consume inp real_bytes) resp₁ scope₁))

  -- The size line of a chunk behind the `off` bytes that wait for the handler.
  unfoldable pub progressive_size :
      ChunkSize → ℕ → ℕ → ℕ → Option Machine → Seed → Buf → Message Buf → Scope → Outcome Round
  unfolding receive_chunk and_then refuse
  progressive_size (ChunkSize.complete i zero) hint off line_end machine seed inp resp scope = do
    (m, resp₁, scope₁) ←
        (if ltb 0 off
          then receive_chunk 0 off machine (remove_range inp off line_end) resp scope
          else ret (machine, resp, scope))
    (m', resp₂, scope₂) ← and_then m e.request_end resp₁ scope₁
    ret (goes_on m' none (consume (remove_range inp off line_end) off) resp₂ scope₂)
  progressive_size (ChunkSize.complete i (suc k)) hint off line_end machine seed inp resp scope =
      ret (
        goes_on machine (some (progressive_chunked hint off (suc k)))
          (remove_range inp off line_end) resp scope)
  progressive_size ChunkSize.partial hint off line_end machine seed inp resp scope = panic
  progressive_size ChunkSize.invalid hint off line_end machine seed inp resp scope =
      refuse invalid_chunk_size machine seed (consume inp line_end) resp scope

  unfoldable pub read_progressive_size :
      ℕ → ℕ → ℕ → Option Machine → Seed → Buf → Message Buf → Scope → Outcome Round
  unfolding progressive_size
  read_progressive_size hint off end machine seed inp resp scope = do
    head ← slice off (off + end + 2) (contents inp)
    progressive_size (e.parse_chunk_size head) hint off (off + end + 2) machine seed inp resp scope

  -- Where the data in the buffer ends, and the buffer without the line end of a whole chunk.
  unfoldable pub progressive_end : ℕ → ℕ → ℕ → Buf → Outcome (ℕ × Buf)
  progressive_end off left end inp = do
    total ← add_u64 off left
    last ← sub_u64 end 2
    ret (
        if total == last
        then (off + left, remove_range inp last end)
        else (length (contents inp), inp))

  unfoldable pub read_progressive_chunk :
      ℕ → ℕ → ℕ → ℕ → Option Machine → Buf → Message Buf → Scope → Outcome Round
  unfolding progressive_end receive_chunk
  read_progressive_chunk hint off left end machine inp resp scope = do
    (ln, inp') ← progressive_end off left end inp
    taken ← sub_u64 ln off
    left' ← sub_u64 left taken
    (if ltb ln hint
        then ret (goes_on machine (some (progressive_chunked hint ln left')) inp' resp scope)
        else (do
          (m, resp', scope') ← receive_chunk 0 ln machine inp' resp scope
          ret (goes_on m (some (progressive_chunked hint 0 left')) (consume inp' ln) resp' scope')))

  -- The match on the progress; a 0 as the last number is a pattern of its own.
  unfoldable pub round :
      BodyProgress → ℕ → Option Machine → Seed → Buf → Message Buf → Scope → Outcome Round
  round (buffer_fixed x) end machine seed inp resp scope =
      read_buffer_fixed x machine inp resp scope
  round (buffer_chunked limit off zero) end machine seed inp resp scope =
      read_buffer_size limit off end machine seed inp resp scope
  round (buffer_chunked limit off (suc k)) end machine seed inp resp scope =
      read_buffer_chunk limit off (suc k) end machine inp resp scope
  round (progressive_fixed hint left) end machine seed inp resp scope =
      read_progressive_fixed hint left machine inp resp scope
  round (progressive_chunked hint off zero) end machine seed inp resp scope =
      read_progressive_size hint off end machine seed inp resp scope
  round (progressive_chunked hint off (suc k)) end machine seed inp resp scope =
      read_progressive_chunk hint off (suc k) end machine inp resp scope

  -- What follows a round: an intent on the rest of the body, or the end of the request.
  unfoldable pub after_round :
      ReadBody Machine Time → Seed → Transport Buf Addr → Round → Outcome (Reply e)
  after_round rb seed t (refused inp resp scope) =
      ret (going e (intent_flush e seed scope) (record t { input = inp; output = resp.0 }))
  after_round rb seed t (goes_on m (some p) inp resp scope) = do
    intent ← intent_body e seed (record rb { machine = m; progress = p; response = resp.1 })
    ret (intent, record t { input = inp; output = resp.0 }, scope)
  after_round rb seed t (goes_on m none inp resp scope) = do
    reply ← complete e seed scope m resp.1 rb.connection_close rb.deadline
    ret (going e reply (record t { input = inp; output = resp.0 }))

  unfoldable pub read_body :
      ReadBody Machine Time → ℕ → Seed → Transport Buf Addr → Scope → Outcome (Reply e)
  read_body rb end seed t scope = do
    r ← round rb.progress end rb.machine seed t.input (t.output, rb.response) scope
    after_round rb seed t r
