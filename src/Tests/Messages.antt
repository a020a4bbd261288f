-- ===== src/Tests/Messages.antt =====
-- Messages built in a buffer of bytes.
use rotor_http.Prelude.{
  inr, ℕ, ◌≤◌, ◌≡◌, refl, true, false, List, [], ◌∷◌, ◌++◌, Bytes, codes, none, some, ret, arith,
}
use native.Mathlib.Decide.{dec_lt}
use rotor_http.Buffer.{byte_buffer, byte_buffer_laws}
use rotor_http.Version.{http11}
use rotor_http.Version
use rotor_http.Std.Radix.{to_radix, emit, digit, lt_wf}
use rotor_http.Message
use rotor_http.Message.{Message, is_bodyless_code}
use rotor_http.Message.State.{
  normal, MessageState, response_start, headers, fixed_body, chunked_body, bodyless,
}
use rotor_http.Message.Calls.{Call, perform, run}
use rotor_http.Message.Automaton.{Step}
use rotor_http.Message.Automaton.Sound.{perform-Step}
use rotor_http.Message.Automaton.Complete.{Step-perform}
use rotor_http.Message.Silent.{run-silent_payload}
use rotor_http.Message.Lengths.{written_headers-le_one, written_headers_complete}
use rotor_http.Message.Output.{written, reached}
use rotor_http.Message.Parts.{render, length_fields}
use rotor_http.Message.Payload.{send, send-fixed_body, send-chunked_body}
use rotor_http.Message.Payload.Dechunk.{dechunk}
use rotor_http.Server.Error.{handler_timeout, http_status}
use rotor_http.Server.Response.{emit_error_page}
use rotor_http.Server.Response.ErrorPage.{unanswered, response_of, emit_error_page_complete}

abbrev pieces : List Bytes
pieces = codes "ab" ∷ [] ∷ codes "cde" ∷ []

send-chunked_body_example :
    (b' : Bytes) × (wire : Bytes) × (send byte_buffer pieces ([], chunked_body false)
      ≡ ret (b', MessageState.done))
    × (b' ≡ [] ++ wire)
    × ((end : Bytes) → dechunk 4 (wire ++ end) ≡ some (codes "abcde", end))
send-chunked_body_example = send-chunked_body byte_buffer byte_buffer_laws pieces []

send-fixed_body_example :
    (b' : Bytes) × (send byte_buffer pieces ([], fixed_body false 5) ≡ ret (b', MessageState.done))
    × (b' ≡ codes "abcde")
send-fixed_body_example = send-fixed_body byte_buffer byte_buffer_laws pieces 5 []

perform-Step_example : Step (fixed_body false 5) (Call.body (codes "ab")) none (fixed_body false 3)
unfolding perform Message.write_body
perform-Step_example =
    perform-Step byte_buffer (Call.body (codes "ab")) ([], fixed_body false 5)
      (codes "ab", fixed_body false 3) none refl

Step-perform_example :
    (b' : Bytes) × (perform byte_buffer (Call.body (codes "ab")) ([], fixed_body true 5)
      ≡ ret (none, (b', fixed_body true 3)))
Step-perform_example =
    Step-perform byte_buffer (Call.body (codes "ab")) [] (fixed_body true 5) (fixed_body true 3)
      none (Step.put_fixed (codes "ab") (omega arith))

run-silent_payload_example :
    codes "HTTP/1.1 204 No Content\r\n\r\n" ≡ codes "HTTP/1.1 204 No Content\r\n\r\n"
unfolding run perform Message.response_status Message.final_status Version.fmt Message.done_headers
    Message.end_headers Message.close_header Message.done to_radix emit digit lt_wf dec_lt
run-silent_payload_example =
    run-silent_payload byte_buffer (Call.status 204 (codes "No Content") ∷ Call.end_of_headers ∷ [])
      Call.finish ([], response_start http11 normal false)
      (codes "HTTP/1.1 204 No Content\r\n\r\n", bodyless)
      (codes "HTTP/1.1 204 No Content\r\n\r\n", MessageState.done) none (inr refl) refl tt refl

abbrev stubborn : List Call
stubborn = Call.length_header 5 ∷ Call.chunked_header ∷ Call.length_header 6 ∷ []

written_headers-le_one_example :
    ((reached byte_buffer stubborn ([], headers normal false)).0
      ≡ [] ++ render (written byte_buffer stubborn ([], headers normal false)))
    × (length_fields (written byte_buffer stubborn ([], headers normal false)) ≤ 1)
written_headers-le_one_example =
    written_headers-le_one byte_buffer byte_buffer_laws stubborn ([], headers normal false)

abbrev whole_response : List Call
whole_response =
    Call.length_header 2 ∷ Call.end_of_headers ∷ Call.body (codes "ab") ∷ Call.finish ∷ []

written_headers_complete_example :
    (codes "Content-Length: 2\r\n\r\nab"
      ≡ [] ++ render (written byte_buffer whole_response ([], headers normal false)))
    × (length_fields (written byte_buffer whole_response ([], headers normal false)) ≡ 1)
unfolding run perform Message.add_length Message.write_header Message.done_headers
    Message.end_headers Message.close_header Message.write_body Message.done to_radix emit digit
    lt_wf dec_lt
written_headers_complete_example =
    written_headers_complete byte_buffer byte_buffer_laws whole_response []
      (codes "Content-Length: 2\r\n\r\nab") normal false (λ e. cc) refl

emit_error_page_complete_example :
    (b' : Bytes) × (emit_error_page byte_buffer
        (http_status {E = ℕ} handler_timeout)
        ([], unanswered http11 true false true)
      ≡ ret (b', MessageState.done))
    × (b'
        ≡ []
          ++ response_of http11 false true
              (http_status {E = ℕ} handler_timeout).0
              (http_status {E = ℕ} handler_timeout).1)
emit_error_page_complete_example =
    emit_error_page_complete byte_buffer byte_buffer_laws handler_timeout http11 true false true []
