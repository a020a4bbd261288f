-- ===== src/Tests/Clients.antt =====
-- Responses read by a client whose handler logs what it is given.
use rotor_http.Prelude.{
  ℕ, ◌+◌, ◌≡◌, refl, List, [], ◌∷◌, ◌++◌, Bytes, codes, none, some, ret, arith, min, slice, add_u64,
  sub_u64,
}
use rotor_http.Buffer.{byte_buffer, byte_buffer_laws}
use rotor_http.Client.Parser.Buffered.{feed_chunked_response}
use rotor_http.Client.Parser.Chunks.{feed}
use rotor_http.Client.Parser.Arrivals.{Collects, arrive, arrive-progressive_fixed}
use rotor_http.Client.Parser.Repeats.{arrive-progressive_eof}
use rotor_http.Client.Parser.Safety.{Whole, bytes_read-Whole}
use rotor_http.Client.Parser.Limits.{Within, Reads, Reads-limited}
use rotor_http.Client.Parser.Lifecycle.{handle-Step}
use rotor_http.Client.Parser.Phase.{Event, Phase, Step}
use rotor_http.Client.Parser.Events.{bytes_read}
use rotor_http.Client.Parser.Reading.{
  finished, goes_on, round, read_body, read_progressive_fixed, receive_chunk, end_response,
  after_round, read_buffer_size, read_buffer_chunk, buffered_size,
}
use rotor_http.Client.Parser.{
  BodyProgress, buffer_chunked, progressive_fixed, progressive_eof, Response, response, flushing,
  Intent, finish, intent, body_expectation, consumed,
}
use rotor_http.Client.Protocol.{Env, Transport, Parsed, Task}
use rotor_http.Client.Request.{Request}
use rotor_http.Message.{is_complete}
use rotor_http.Message.State.{MessageState}
use rotor_http.Stream.{Expectation}
use rotor_http.Tests.Bodies.{one_digit, simple_delivery, size_line, two_chunks}

abbrev pub client : Env
client = record {
  Buf = Bytes;
  Cli = Unit;
  Req = Unit;
  Seed = Unit;
  Scope = List Bytes;
  Time = ℕ;
  Duration = ℕ;
  Io = Unit;
  ops = byte_buffer;
  now = λ scope. 0;
  add_time = λ t d. t + d;
  min_time = min;
  parse_response = λ s. Parsed.partial;
  parse_chunk_size = one_digit;
  create = λ seed scope. ret (tt, scope);
  connection_idle = λ cli c scope. ret (Task.close, scope);
  connection_error = λ cli x scope. ret scope;
  client_wakeup = λ cli c scope. ret (Task.close, scope);
  client_timeout = λ cli c scope. ret (Task.close, scope);
  connect_timeout = λ cli scope. (15, scope);
  idle_timeout = λ cli scope. (120, scope);
  prepare_request = λ m req scope. ret (some m, req, scope);
  headers_received = λ m head req scope. ret (none, req, scope);
  response_received = λ m piece req scope. ret (req, piece ∷ scope);
  bad_response = λ m x scope. ret scope;
  response_chunk = λ m piece req scope. ret (some m, req, piece ∷ scope);
  response_end = λ m req scope. ret (req, scope);
  byte_timeout = λ m scope. (120, scope);
}

-- A request that has been sent.
abbrev pub sent_request : Request Bytes
sent_request = record { message = ([], MessageState.done); is_head = none }

feed_chunked_response_example :
    (inp' : Bytes) × (feed client simple_delivery 5
        (buffer_chunked 10 0 0)
        tt
        (codes "2\r\nab\r\n3\r\ncde\r\n0\r\n\r\n")
        sent_request
        []
      ≡ ret (finished inp' sent_request (codes "abcde" ∷ [])))
    × (inp' ≡ codes "\r\n")
feed_chunked_response_example =
    feed_chunked_response client byte_buffer_laws simple_delivery two_chunks 10 (codes "0")
      (codes "\r\n") tt (codes "2\r\nab\r\n3\r\ncde\r\n0\r\n\r\n") sent_request []
      (
        record {
          size_line = size_line 50 (omega arith) (omega arith) (omega arith);
          not_empty = omega arith;
        },
        (
          record {
            size_line = size_line 51 (omega arith) (omega arith) (omega arith);
            not_empty = omega arith;
          },
          tt,
        ),
      )
      (size_line 48 (omega arith) (omega arith) (omega arith)) (omega arith) (omega arith) refl

abbrev response_with : BodyProgress → Response (Unit {0}) ℕ
response_with p = record { progress = p; machine = tt; deadline = 7; request = MessageState.done }

abbrev holding : Bytes → Transport Bytes
holding input = record { input = input; output = [] }

bytes_read-Whole_example : Whole client (
    round client
      (progressive_fixed 2 3)
      3
      tt
      (codes "abc")
      (record { message = ([], MessageState.done); is_head = none })
      [])
unfolding bytes_read read_body round read_progressive_fixed receive_chunk end_response after_round
    finish intent is_complete slice
bytes_read-Whole_example =
    bytes_read-Whole client (response_with (progressive_fixed 2 3)) 3 tt tt (holding (codes "abc"))
      (holding []) [] (codes "abc" ∷ []) (Expectation.flush 0) 120 120 refl

-- A size line, and its chunk.
abbrev two_events : Reads client 10 (response_with (buffer_chunked 10 2 0)) 2
unfolding bytes_read read_body round read_buffer_size buffered_size read_buffer_chunk after_round
    intent body_expectation consumed add_u64 sub_u64 slice
two_events =
    Reads.then_event {r' = response_with (buffer_chunked 10 2 0)} (Event.arrived 4) tt
      (holding (codes "ab\r\n")) []
      (Reads.then_event {r = response_with (buffer_chunked 10 0 0)}
        {r' = response_with (buffer_chunked 10 0 2)} (Event.arrived 1) tt
        (holding (codes "2\r\nab\r\n")) [] (Reads.begins refl) refl)
      refl

Reads-limited_example : Within 10 2 (buffer_chunked 10 2 0)
Reads-limited_example = Reads-limited client 10 (response_with (buffer_chunked 10 2 0)) 2 two_events

handle-Step_example : Step {Io = Unit} (Event.arrived 3) Phase.reads_body Phase.flushes
unfolding bytes_read read_body round read_progressive_fixed receive_chunk end_response after_round
    finish intent is_complete slice
handle-Step_example =
    handle-Step client (Event.arrived 3) (response (response_with (progressive_fixed 2 3))) tt
      (holding (codes "abc")) []
      (Intent.of tt (flushing 120) (Expectation.flush 0) 120, holding [], codes "abc" ∷ []) refl

abbrev taken_in : List Bytes → Bytes
taken_in [] = []
taken_in (piece ∷ pieces) = taken_in pieces ++ piece

abbrev logged : Collects client
logged = record {
  taken = taken_in;
  keep = λ m piece scope. piece ∷ scope;
  close = λ m scope. scope;
  on_chunk = λ m piece req scope. refl;
  on_end = λ m req scope. refl;
  taken-keep = λ m piece scope. refl;
  taken-close = λ m scope. refl;
}

arrive-progressive_fixed_example :
    (inp' : Bytes) × (scope' : List Bytes) × (arrive client
        (codes "ab" ∷ codes "c" ∷ codes "deHTTP" ∷ [])
        (progressive_fixed 2 5)
        tt
        []
        sent_request
        []
      ≡ ret (finished inp' sent_request scope'))
    × (taken_in scope' ≡ codes "abcde")
    × (inp' ≡ codes "HTTP")
arrive-progressive_fixed_example =
    arrive-progressive_fixed client byte_buffer_laws logged (codes "ab" ∷ codes "c" ∷ []) 2
      (codes "de") (codes "HTTP") tt [] sent_request [] refl (omega arith)

arrive-progressive_eof_example :
    (inp' : Bytes) × (scope' : List Bytes) × (arrive client
        (codes "ab" ∷ codes "c" ∷ [])
        (progressive_eof 2)
        tt
        []
        sent_request
        []
      ≡ ret (goes_on (some tt) (progressive_eof 2) inp' sent_request scope'))
    × (taken_in scope' ≡ codes "ababc")
    × (inp' ≡ codes "abc")
arrive-progressive_eof_example =
    arrive-progressive_eof client byte_buffer_laws logged (codes "ab" ∷ codes "c" ∷ []) 2 tt []
      sent_request []
