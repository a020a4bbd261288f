-- ===== src/Tests/Exchanges.antt =====
-- A body sent in two pieces, read by a server and by a client that read sizes with the decoder's
-- `read_size`.
use native.Mathlib.Decide.{dec_lt}
use rotor_http.Prelude.{
  ℕ, ◌≡◌, refl, ap, false, List, [], ◌∷◌, ◌++◌, Bytes, codes, crlf, length, Option, none, some, ret,
  arith,
}
use rotor_http.Buffer.{byte_buffer, byte_buffer_laws}
use rotor_http.Client.Parser.Chunks as Response
use rotor_http.Client.Parser.Reading.{finished}
use rotor_http.Client.Parser as ClientParser
use rotor_http.Client.Protocol as ClientProtocol
use rotor_http.Exchange.Bodies.{send-request_received, send-response_received}
use rotor_http.Exchange.Wire.{ReadsHex}
use rotor_http.Message
use rotor_http.Message.Payload.Dechunk.{read_size, read_size-to_hex}
use rotor_http.Message.Payload.{write_pieces, send}
use rotor_http.Message.State.{MessageState, chunked_body}
use rotor_http.Server.Parser.Decode as Server
use rotor_http.Server.Parser.Reading.{goes_on}
use rotor_http.Server.Parser as ServerParser
use rotor_http.Server.Protocol as ServerProtocol
use rotor_http.Std.Radix.{to_hex, to_radix, emit, digit, lt_wf}
use rotor_http.Stream.{ChunkSize}
use rotor_http.Tests.Bodies.{logging, simple_delivery}
use rotor_http.Tests.Clients.{client, sent_request}

abbrev size_found : ℕ → Option (ℕ × Bytes) → ChunkSize
size_found i none = ChunkSize.invalid
size_found i (some (n, rest)) = ChunkSize.complete i n

abbrev hex_size : Bytes → ChunkSize
hex_size s = size_found (length s) (read_size s)

abbrev hex_sizes : ReadsHex hex_size
hex_sizes = record {
  index = λ n. length (to_hex n ++ crlf);
  reads = λ n h. ap (size_found (length (to_hex n ++ crlf))) (read_size-to_hex n []);
}

abbrev server_hex : ServerProtocol.Env
server_hex = record logging { parse_chunk_size = hex_size }

abbrev client_hex : ClientProtocol.Env
client_hex = record client { parse_chunk_size = hex_size }

abbrev pieces : List Bytes
pieces = codes "ab" ∷ [] ∷ codes "cde" ∷ []

abbrev wire : Bytes
wire = codes "2\r\nab\r\n3\r\ncde\r\n0\r\n\r\n"

sending : send byte_buffer pieces ([], chunked_body false) ≡ ret (wire, MessageState.done)
unfolding send write_pieces Message.write_body Message.write_chunk Message.done to_radix emit digit
    lt_wf dec_lt
sending = refl

send-request_received_example :
    (inp' : Bytes) × (Server.feed server_hex simple_delivery 5 tt
        (ServerParser.buffer_chunked 10 0 0)
        (some tt)
        (wire ++ codes "GET")
        ([], MessageState.done)
        []
      ≡ ret (goes_on none none inp' ([], MessageState.done) (codes "abcde" ∷ [])))
    × (inp' ≡ codes "\r\nGET")
send-request_received_example =
    send-request_received byte_buffer byte_buffer_laws simple_delivery server_hex byte_buffer_laws
      hex_sizes pieces 10 wire (codes "GET") [] (wire, MessageState.done) tt tt
      (wire ++ codes "GET") ([], MessageState.done) [] sending refl (omega arith) (omega arith) refl

send-response_received_example :
    (inp' : Bytes) × (Response.feed client_hex simple_delivery 5
        (ClientParser.buffer_chunked 10 0 0)
        tt
        (wire ++ codes "HTTP")
        sent_request
        []
      ≡ ret (finished inp' sent_request (codes "abcde" ∷ [])))
    × (inp' ≡ codes "\r\nHTTP")
send-response_received_example =
    send-response_received byte_buffer byte_buffer_laws simple_delivery client_hex byte_buffer_laws
      hex_sizes pieces 10 wire (codes "HTTP") [] (wire, MessageState.done) tt (wire ++ codes "HTTP")
      sent_request [] sending refl (omega arith) (omega arith) refl
