-- ===== src/Client/Parser/Reading.antt =====
-- client/parser.rs, `bytes_read` in the state `Response`: the body of a response.
use rotor_http.Prelude.{
  ℕ, zero, suc, ◌+◌, ◌-◌, ◌==◌, if◌then◌else◌, ltb, min, length, Option, none, some, Outcome, ret,
  panic, ◌>>=◌, ◌>>◌, assert, add_u64, sub_u64, slice,
}
use rotor_http.Client.Error.{ResponseError, chunk_is_too_large, invalid_chunk_size}
use rotor_http.Client.Parser.{
  BodyProgress, buffer_fixed, buffer_eof, buffer_chunked, progressive_fixed, progressive_eof,
  progressive_chunked, Response, response, Intent, Reply, intent, finish, consumed,
}
use rotor_http.Client.Protocol.{Env, Transport}
use rotor_http.Client.Request.{Request, state}
use rotor_http.Stream.{ChunkSize}

module _ (e : Env) where
  open e use {Buf, Cli, Req, Scope, Time, Io, ops}
  open ops use {contents, consume, remove_range}

  -- The end of a round, with what is left of the input, the request and the scope: the handler (if
  -- it goes on) and the progress; the end of the response (`Parser::finish`); or a closed connection
  -- (`Intent::done`).
  pub data Round : Type 0 where
    goes_on : Option Req → BodyProgress → Buf → Request Buf → Scope → Round
    finished : Buf → Request Buf → Scope → Round
    closed : Buf → Request Buf → Scope → Round

  -- `machine.response_received(&inp[lo..hi], …)`
  unfoldable pub receive : ℕ → ℕ → Req → Buf → Request Buf → Scope → Outcome (Request Buf × Scope)
  receive lo hi machine inp req scope = do
    piece ← slice lo hi (contents inp)
    e.response_received machine piece req scope

  -- The same with `response_chunk`.
  unfoldable pub receive_chunk :
      ℕ → ℕ → Req → Buf → Request Buf → Scope → Outcome (Option Req × Request Buf × Scope)
  receive_chunk lo hi machine inp req scope = do
    piece ← slice lo hi (contents inp)
    e.response_chunk machine piece req scope

  -- `m.map(|x| x.response_end(&mut req, scope))`
  unfoldable pub end_response : Option Req → Request Buf → Scope → Outcome (Request Buf × Scope)
  end_response none req scope = ret (req, scope)
  end_response (some m) req scope = e.response_end m req scope

  -- `bad_response`, and `return Intent::done()`.
  unfoldable pub refuse : ResponseError Io → Req → Buf → Request Buf → Scope → Outcome Round
  refuse x machine inp req scope = do
    scope' ← e.bad_response machine x scope
    ret (closed inp req scope')

  unfoldable pub read_buffer_fixed : ℕ → Req → Buf → Request Buf → Scope → Outcome Round
  unfolding receive
  read_buffer_fixed x machine inp req scope = do
    (req', scope') ← receive 0 x machine inp req scope
    ret (finished (consume inp x) req' scope')

  -- The size line of a buffered chunk, which ends at `end` behind what is buffered and its line end.
  unfoldable pub buffered_size :
      ChunkSize → ℕ → ℕ → ℕ → Req → Buf → Request Buf → Scope → Outcome Round
  unfolding receive refuse
  buffered_size (ChunkSize.complete i zero) limit off end machine inp req scope =
      let cut = remove_range inp off (consumed off + end + 2) in
      do
        (req', scope') ← receive 0 off machine cut req scope
        ret (finished (consume cut off) req' scope')
  buffered_size (ChunkSize.complete i (suc k)) limit off end machine inp req scope = do
    total ← add_u64 off (suc k)
    (if ltb limit total
        then refuse (chunk_is_too_large total limit) machine (consume inp (end + 2)) req scope
        else ret (
            goes_on (some machine) (buffer_chunked limit off (suc k))
              (remove_range inp off (consumed off + end + 2)) req scope))
  buffered_size ChunkSize.partial limit off end machine inp req scope = panic
  buffered_size ChunkSize.invalid limit off end machine inp req scope =
      refuse invalid_chunk_size machine (consume inp (end + 2)) req scope

  unfoldable pub read_buffer_size : ℕ → ℕ → ℕ → Req → Buf → Request Buf → Scope → Outcome Round
  unfolding buffered_size
  read_buffer_size limit off end machine inp req scope =
      let lenstart = consumed off in
      do
        head ← slice lenstart (lenstart + end + 2) (contents inp)
        buffered_size (e.parse_chunk_size head) limit off end machine inp req scope

  unfoldable pub read_buffer_chunk : ℕ → ℕ → ℕ → ℕ → Req → Buf → Request Buf → Scope → Outcome Round
  read_buffer_chunk limit off left end machine inp req scope = do
    last ← sub_u64 end 2
    assert (off + left == last)
    ret (goes_on (some machine) (buffer_chunked limit (off + left) 0) inp req scope)

  unfoldable pub read_progressive_fixed : ℕ → ℕ → Req → Buf → Request Buf → Scope → Outcome Round
  unfolding receive_chunk end_response
  read_progressive_fixed hint left machine inp req scope =
      let real_bytes = min (length (contents inp)) left in
      do
        (m, req₁, scope₁) ← receive_chunk 0 real_bytes machine inp req scope
        (if left - real_bytes == 0
            then (do
              (req₂, scope₂) ← end_response m req₁ scope₁
              ret (finished (consume inp real_bytes) req₂ scope₂))
            else ret (
                goes_on m (progressive_fixed hint (left - real_bytes)) (consume inp real_bytes) req₁
                  scope₁))

  -- To the end of the stream: nothing is consumed.
  unfoldable pub read_progressive_eof : ℕ → Req → Buf → Request Buf → Scope → Outcome Round
  unfolding receive_chunk
  read_progressive_eof hint machine inp req scope = do
    (m, req', scope') ← receive_chunk 0 (length (contents inp)) machine inp req scope
    ret (goes_on m (progressive_eof hint) inp req' scope')

  -- The size line of a chunk behind the `off` bytes that wait for the handler.
  unfoldable pub progressive_size :
      ChunkSize → ℕ → ℕ → ℕ → Req → Buf → Request Buf → Scope → Outcome Round
  unfolding receive_chunk end_response refuse
  progressive_size (ChunkSize.complete i zero) hint off line_end machine inp req scope =
      let cut = remove_range inp off line_end in
      do
        (m, req₁, scope₁) ← receive_chunk 0 off machine cut req scope
        (req₂, scope₂) ← end_response m req₁ scope₁
        ret (finished (consume cut off) req₂ scope₂)
  progressive_size (ChunkSize.complete i (suc k)) hint off line_end machine inp req scope = ret (
      goes_on (some machine) (progressive_chunked hint off (suc k)) (remove_range inp off line_end)
        req scope)
  progressive_size ChunkSize.partial hint off line_end machine inp req scope = panic
  progressive_size ChunkSize.invalid hint off line_end machine inp req scope =
      refuse invalid_chunk_size machine (consume inp line_end) req scope

  unfoldable pub read_progressive_size : ℕ → ℕ → ℕ → Req → Buf → Request Buf → Scope → Outcome Round
  unfolding progressive_size
  read_progressive_size hint off end machine inp req scope = do
    head ← slice off (off + end + 2) (contents inp)
    progressive_size (e.parse_chunk_size head) hint off (off + end + 2) machine inp req scope

  -- Where the data in the buffer ends, and the buffer without the line end of a whole chunk.
  unfoldable pub progressive_end : ℕ → ℕ → ℕ → Buf → Outcome (ℕ × Buf)
  progressive_end off left end inp = do
    total ← add_u64 off left
    last ← sub_u64 end 2
    ret (
        if total == last
        then (off + left, remove_range inp last end)
        else (length (contents inp), inp))

  unfoldable pub read_progressive_chunk :
      ℕ → ℕ → ℕ → ℕ → Req → Buf → Request Buf → Scope → Outcome Round
  unfolding progressive_end receive_chunk
  read_progressive_chunk hint off left end machine inp req scope = do
    (ln, inp') ← progressive_end off left end inp
    taken ← sub_u64 ln off
    left' ← sub_u64 left taken
    (if ltb ln hint
        then ret (goes_on (some machine) (progressive_chunked hint ln left') inp' req scope)
        else (do
          (m, req', scope') ← receive_chunk 0 ln machine inp' req scope
          ret (goes_on m (progressive_chunked hint 0 left') (consume inp' ln) req' scope')))

  -- The match on the progress; `BufferEOF` is `unreachable!()`.
  unfoldable pub round : BodyProgress → ℕ → Req → Buf → Request Buf → Scope → Outcome Round
  round (buffer_fixed x) end machine inp req scope = read_buffer_fixed x machine inp req scope
  round (buffer_eof x) end machine inp req scope = panic
  round (buffer_chunked limit off zero) end machine inp req scope =
      read_buffer_size limit off end machine inp req scope
  round (buffer_chunked limit off (suc k)) end machine inp req scope =
      read_buffer_chunk limit off (suc k) end machine inp req scope
  round (progressive_fixed hint left) end machine inp req scope =
      read_progressive_fixed hint left machine inp req scope
  round (progressive_eof hint) end machine inp req scope =
      read_progressive_eof hint machine inp req scope
  round (progressive_chunked hint off zero) end machine inp req scope =
      read_progressive_size hint off end machine inp req scope
  round (progressive_chunked hint off (suc k)) end machine inp req scope =
      read_progressive_chunk hint off (suc k) end machine inp req scope

  -- What follows a round; a handler that gives up is `unimplemented!()`.
  unfoldable pub after_round : Response Req Time → Cli → Round → Outcome (Reply e)
  after_round r cli (goes_on none p inp req scope) = panic
  after_round r cli (goes_on (some m) p inp req scope) = do
    (i, scope') ←
        intent e (response (record r { progress = p; machine = m; request = state req })) cli scope
    ret (i, record { input = inp; output = req.message.0 }, scope')
  after_round r cli (finished inp req scope) = do
    (i, scope') ← finish e cli req scope
    ret (i, record { input = inp; output = req.message.0 }, scope')
  after_round r cli (closed inp req scope) =
      ret (Intent.done, record { input = inp; output = req.message.0 }, scope)

  -- `request.with(out)` is the message with a new `None`.
  unfoldable pub read_body : Response Req Time → ℕ → Cli → Transport Buf → Scope → Outcome (Reply e)
  read_body r end cli t scope = do
    next ←
        round r.progress end r.machine t.input
          (record { message = (t.output, r.request); is_head = none }) scope
    after_round r cli next
