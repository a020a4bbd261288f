-- ===== src/Tests/Connections.antt =====
-- Events of a connection with a handler that does little.
use rotor_http.Prelude.{
  ℕ, refl, true, false, [], ◌∷◌, ret, Bytes, codes, none, some, add_u64, sub_u64, slice,
}
use rotor_http.Message.{is_started, is_complete}
use rotor_http.Message.State.{MessageState, response_start, normal}
use rotor_http.Server.Parser.{
  BodyProgress, buffer_fixed, buffer_chunked, ReadBody, done_response, flush, intent_flush,
  complete, start_body, reading_body, Intent, bytes, intent_body, body_expectation, consumed,
}
use rotor_http.Server.Parser.Events.{bytes_read, Exception, exception, abort}
use rotor_http.Server.Parser.Limits.{Within, Ends}
use rotor_http.Server.Parser.Reading.{
  receive, and_then, read_buffer_fixed, read_body, round, read_buffer_size, read_buffer_chunk,
  buffered_size, after_round, reject,
}
use rotor_http.Server.Parser.Closing.{ClosingReply, react-Closing}
use rotor_http.Server.Parser.Lifecycle.{react-Step}
use rotor_http.Server.Parser.Phase.{Event, Phase, Step}
use rotor_http.Server.Parser.LastRequest.{read_head-ClosingReply}
use rotor_http.Server.Parser.Head.{Reply, read_head, parsed_head, scanned_head, answered, accept}
use rotor_http.Server.Scan.{RawRequest, scan_raw_request, scan_headers, scanned}
use rotor_http.RecvMode.{buffered}
use rotor_http.Server.Response.{new}
use rotor_http.Server.Parser.Safety.{Reads, Reads-Within, exception-Ends}
use rotor_http.Server.Protocol.{Transport, Env, Parsed}
use rotor_http.Std.Ascii.{bytes_eq}
use rotor_http.Tests.Bodies.{logging}
use rotor_http.Version.{http10, http11}

abbrev body_with : BodyProgress → ReadBody (Unit {0}) ℕ
body_with p = record {
  machine = some tt;
  deadline = 7;
  response = response_start http11 normal false;
  progress = p;
  connection_close = false;
}

abbrev pub holding : Bytes → Transport Bytes (Unit {0})
holding input = record { input = input; output = []; peer = none }

-- A size line, and its chunk.
abbrev two_events : Reads logging 10 (body_with (buffer_chunked 10 2 0)) 2
unfolding bytes_read read_body round read_buffer_size buffered_size read_buffer_chunk after_round
    intent_body body_expectation consumed add_u64 sub_u64 slice
two_events =
    Reads.then_event {rb' = body_with (buffer_chunked 10 2 0)} (Event.arrived 4) tt
      (holding (codes "ab\r\n")) []
      (Reads.then_event {rb = body_with (buffer_chunked 10 0 0)}
        {rb' = body_with (buffer_chunked 10 0 2)} (Event.arrived 1) tt
        (holding (codes "2\r\nab\r\n")) [] (Reads.begins refl) refl)
      refl

Reads-Within_example : Within 10 2 (buffer_chunked 10 2 0)
Reads-Within_example = Reads-Within logging 10 (body_with (buffer_chunked 10 2 0)) 2 two_events

exception-Ends_example : Ends logging (Intent.done, holding (codes "ab"), [])
unfolding exception abort reject is_started is_complete
exception-Ends_example =
    exception-Ends logging (reading_body (body_with (buffer_chunked 10 0 2)))
      Exception.end_of_stream tt (holding (codes "ab")) [] (Intent.done, holding (codes "ab"), [])
      refl

react-Closing_example :
    ClosingReply logging (Intent.of done_response tt (flush 0) 3600, holding [], codes "ab" ∷ [])
unfolding bytes_read read_body round read_buffer_fixed receive and_then after_round complete
    intent_flush is_complete slice
react-Closing_example =
    react-Closing logging (Event.arrived 2)
      (reading_body (record (body_with (buffer_fixed 2)) {
        connection_close = true;
        response = MessageState.done;
      }))
      tt (holding (codes "ab")) []
      (Intent.of done_response tt (flush 0) 3600, holding [], codes "ab" ∷ []) refl refl

react-Step_example : Step (Event.arrived 2) Phase.reads Phase.flushes
unfolding bytes_read read_body round read_buffer_fixed receive and_then after_round complete
    intent_flush is_complete slice
react-Step_example =
    react-Step logging (Event.arrived 2)
      (reading_body (record (body_with (buffer_fixed 2)) {
        connection_close = true;
        response = MessageState.done;
      }))
      tt (holding (codes "ab")) []
      (Intent.of done_response tt (flush 0) 3600, holding [], codes "ab" ∷ []) refl

-- A request of HTTP/1.0.
abbrev old : RawRequest
old = record {
  method = some (codes "GET");
  path = some (codes "/");
  version = some 0;
  headers = [];
}

-- A handler that takes the request.
abbrev taking : Env
taking = record logging {
  parse_request = λ s. Parsed.complete 4 old;
  headers_received = λ seed request resp scope. ret (some (tt, buffered 10, 7), resp, scope);
}

abbrev accepted : Reply taking
accepted = (
  Intent.of
      (reading_body (record (body_with (buffer_fixed 0)) {
        connection_close = true;
        response = response_start http10 normal true;
      }))
      tt (bytes 0) 7,
  holding [],
  [],
)

read_head-ClosingReply_example : ClosingReply taking accepted
unfolding read_head parsed_head scan_raw_request scan_headers scanned scanned_head answered accept
    start_body intent_body body_expectation new bytes_eq
read_head-ClosingReply_example =
    read_head-ClosingReply taking 4 old (codes "GET") 0 tt (holding (codes "head")) [] accepted refl
      refl refl refl refl
