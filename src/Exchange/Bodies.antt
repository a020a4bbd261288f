-- ===== src/Exchange/Bodies.antt =====
-- A chunked body from the message that sends it to the handler that receives it.
use mathlib.Core.List.{append_cancel_left}
use rotor_http.Prelude.{
  ℕ, ◌+◌, ◌^◌, ◌≤◌, ◌<◌, ◌≡◌, sym, ap, ◌∙◌, false, List, ◌++◌, arith, Bytes, codes, crlf, length,
  none, some, ret, ret_injective, ◌>>=◌,
}
use rotor_http.Buffer.{BufferOps, BufferLaws}
use rotor_http.Client.Parser.Buffered.{feed_chunked_response}
use rotor_http.Client.Parser.Chunks.{resumed}
use rotor_http.Client.Parser.Chunks as Response
use rotor_http.Client.Parser.Reading.{finished}
use rotor_http.Client.Parser as ClientParser
use rotor_http.Client.Protocol as ClientProtocol
use rotor_http.Client.Request.{Request}
use rotor_http.Exchange.Wire.{
  ReadsHex, pieces, payloads-pieces, chunks-stream, last-SizeLine, pieces-IsChunk,
}
use rotor_http.Message.Payload.Dechunk.{concat, chunks, last_chunk}
use rotor_http.Message.Payload.{send, send-chunks}
use rotor_http.Message.State.{chunked_body}
use rotor_http.Message.{Message}
use rotor_http.Server.Parser.Buffered.{feed_buffered_chunks}
use rotor_http.Server.Parser.Decode as Server
use rotor_http.Server.Parser.Reading.{goes_on}
use rotor_http.Server.Parser as ServerParser
use rotor_http.Server.Protocol as ServerProtocol
use rotor_http.Stream.{Delivery, stream, rounds}

-- Which bytes a sent body is.
sent-stream :
    {Buf : Type 0} (ops : BufferOps Buf) (laws : BufferLaws ops) (ds : List Bytes) (b : Buf)
    (m : Message Buf) (wire end : Bytes)
    → send ops ds (b, chunked_body false) ≡ ret m
    → ops.contents m.0 ≡ ops.contents b ++ wire
    → wire ++ end ≡ stream (pieces ds) (codes "0") (crlf ++ end)
sent-stream {Buf} ops laws ds b m wire end sending adds =
    let (b', e, c) = send-chunks ops laws ds b in
    let same : ops.contents m.0 ≡ ops.contents b' =
      ap (λ (x : Message Buf). ops.contents x.0) (ret_injective (sym sending ∙ e)) in
    let wire_is : wire ≡ chunks ds ++ last_chunk =
      append_cancel_left (ops.contents b) wire (chunks ds ++ last_chunk) (sym adds ∙ same ∙ c) in
    ap (λ w. w ++ end) wire_is ∙ chunks-stream ds end

module _ {Buf : Type 0} (sender : BufferOps Buf) (sender_laws : BufferLaws sender)
    (d : Delivery) where
  module _ (e : ServerProtocol.Env) (laws : BufferLaws e.ops)
      (hex : ReadsHex e.parse_chunk_size) where
    -- A request body that a message sends in chunks, in any pieces, arrives: a server that buffers
    -- it reads what the sender has written and calls `request_received` once, on the pieces put
    -- together, if they are within its limit, the limit with a line end is a u64 and httparse reads
    -- sizes in hexadecimal. The empty line that ends the body stays in the input, before what follows.
    pub send-request_received :
        (ds : List Bytes) (limit : ℕ) (wire end : Bytes) (b : Buf) (sent : Message Buf)
        (m : e.Machine) (seed : e.Seed) (inp : e.Buf) (resp : Message e.Buf) (scope : e.Scope)
        → send sender ds (b, chunked_body false) ≡ ret sent
        → sender.contents sent.0 ≡ sender.contents b ++ wire
        → length (concat ds) ≤ limit
        → limit + 2 < 2 ^ 64
        → e.ops.contents inp ≡ wire ++ end
        → (inp' : e.Buf) × (Server.feed e d
              (rounds (pieces ds))
              seed
              (ServerParser.buffer_chunked limit 0 0)
              (some m)
              inp
              resp
              scope
            ≡ (do
              (m', resp', scope') ← e.request_received m (concat ds) resp scope
              ret (goes_on m' none inp' resp' scope')))
          × (e.ops.contents inp' ≡ crlf ++ end)
    send-request_received ds limit wire end b sent m seed inp resp scope sending adds fits word
          holds =
        rw (payloads-pieces ds) at (
          feed_buffered_chunks e laws d (pieces ds) limit (codes "0") (crlf ++ end) m seed inp resp
            scope (pieces-IsChunk e.parse_chunk_size hex ds (omega arith))
            (last-SizeLine e.parse_chunk_size hex) (rw (payloads-pieces ds) fits) word
            (holds ∙ sent-stream sender sender_laws ds b sent wire end sending adds))

  module _ (e : ClientProtocol.Env) (laws : BufferLaws e.ops)
      (hex : ReadsHex e.parse_chunk_size) where
    -- A response body that a message sends in chunks, in any pieces, arrives: a client that buffers
    -- it reads what the sender has written and calls `response_received` once, on the pieces put
    -- together, if they are within its limit, the limit with a line end is a u64 and httparse reads
    -- sizes in hexadecimal. The empty line that ends the body stays in the input, before what follows.
    pub send-response_received :
        (ds : List Bytes) (limit : ℕ) (wire end : Bytes) (b : Buf) (sent : Message Buf) (m : e.Req)
        (inp : e.Buf) (req : Request e.Buf) (scope : e.Scope)
        → send sender ds (b, chunked_body false) ≡ ret sent
        → sender.contents sent.0 ≡ sender.contents b ++ wire
        → length (concat ds) ≤ limit
        → limit + 2 < 2 ^ 64
        → e.ops.contents inp ≡ wire ++ end
        → (inp' : e.Buf) × (Response.feed e d
              (rounds (pieces ds))
              (ClientParser.buffer_chunked limit 0 0)
              m
              inp
              (resumed e req)
              scope
            ≡ (do
              (req', scope') ← e.response_received m (concat ds) (resumed e req) scope
              ret (finished inp' req' scope')))
          × (e.ops.contents inp' ≡ crlf ++ end)
    send-response_received ds limit wire end b sent m inp req scope sending adds fits word holds =
        rw (payloads-pieces ds) at (
          feed_chunked_response e laws d (pieces ds) limit (codes "0") (crlf ++ end) m inp req scope
            (pieces-IsChunk e.parse_chunk_size hex ds (omega arith))
            (last-SizeLine e.parse_chunk_size hex) (rw (payloads-pieces ds) fits) word
            (holds ∙ sent-stream sender sender_laws ds b sent wire end sending adds))
