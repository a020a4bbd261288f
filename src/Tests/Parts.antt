-- ===== src/Tests/Parts.antt =====
-- Chunked bodies that are handed over in parts, and what a connection asks for.
use rotor_http.Prelude.{List, ◌≡◌, refl, [], ◌∷◌, Bytes, codes, none, some, ret, panic, arith}
use rotor_http.Buffer.{byte_buffer_laws}
use rotor_http.Message.State.{MessageState}
use rotor_http.Server.Parser.Decode.{feed}
use rotor_http.Server.Parser.Demand.{AsksAtMost, body_expectation-AsksAtMost}
use rotor_http.Server.Parser.Gathered.{feed_progressive_chunks}
use rotor_http.Server.Parser.Overrun.{feed_overrun}
use rotor_http.Server.Parser.Reading.{goes_on}
use rotor_http.Server.Parser.{progressive_chunked, body_expectation}
use rotor_http.Stream.{Expectation, Piece}
use rotor_http.Tests.Bodies.{logging, logged, taken_in, simple_delivery, size_line}

abbrev three_chunks : List Piece
three_chunks =
    record { line = codes "2"; payload = codes "ab" }
    ∷ record { line = codes "1"; payload = codes "c" }
    ∷ record { line = codes "3"; payload = codes "def" }
    ∷ []

feed_progressive_chunks_example :
    (inp' : Bytes) × (scope' : _) × (feed logging simple_delivery 7 tt
        (progressive_chunked 3 0 0)
        (some tt)
        (codes "2\r\nab\r\n1\r\nc\r\n3\r\ndef\r\n0\r\nGET")
        ([], MessageState.done)
        []
      ≡ ret (goes_on none none inp' ([], MessageState.done) scope'))
    × (inp' ≡ codes "GET")
    × (taken_in scope' ≡ codes "abcdef")
feed_progressive_chunks_example =
    feed_progressive_chunks logging byte_buffer_laws simple_delivery logged three_chunks 3
      (codes "0") (codes "GET") tt tt (codes "2\r\nab\r\n1\r\nc\r\n3\r\ndef\r\n0\r\nGET")
      ([], MessageState.done) []
      (
        record {
          size_line = size_line 50 (omega arith) (omega arith) (omega arith);
          not_empty = omega arith;
        },
        (
          record {
            size_line = size_line 49 (omega arith) (omega arith) (omega arith);
            not_empty = omega arith;
          },
          (
            record {
              size_line = size_line 51 (omega arith) (omega arith) (omega arith);
              not_empty = omega arith;
            },
            tt,
          ),
        ),
      )
      (size_line 48 (omega arith) (omega arith) (omega arith))
      (omega arith, (omega arith, (omega arith, tt))) (omega arith) refl

feed_overrun_example :
    feed logging simple_delivery 1 tt
      (progressive_chunked 2 1 3)
      (some tt)
      (codes "abcd\r\n3\r\n")
      ([], MessageState.done)
      []
    ≡ panic
feed_overrun_example =
    feed_overrun logging byte_buffer_laws simple_delivery 0 2 2 (codes "a") (codes "bcd")
      (codes "3\r\n") (some tt) tt (codes "abcd\r\n3\r\n") ([], MessageState.done) [] refl
      (omega arith) (omega arith) (omega arith) refl

body_expectation-AsksAtMost_example :
    (exp : Expectation) × (body_expectation (progressive_chunked 1000 200 900) ≡ ret exp)
    × AsksAtMost 1130 exp
body_expectation-AsksAtMost_example =
    body_expectation-AsksAtMost 1000 (progressive_chunked 1000 200 900) (omega arith)
      (omega arith, omega arith, omega arith)
