-- ===== src/Tests/Refused.antt =====
-- Requests that are refused, with the default error page.
use rotor_http.Prelude.{◌>>=◌, refl, ret, codes, []}
use rotor_http.Buffer.{byte_buffer, byte_buffer_laws}
use rotor_http.Server.Error.{bad_headers, http_status}
use rotor_http.Server.Parser.Refusals.{Answered, BadHead, BadRequest, react-Answered}
use rotor_http.Server.Parser.Phase.{Event, react}
use rotor_http.Server.Parser.{idle}
use rotor_http.Server.Protocol.{Env, Parsed}
use rotor_http.Server.Response.{emit_error_page}
use rotor_http.Tests.Bodies.{logging}
use rotor_http.Tests.Connections.{holding}

abbrev refusing : Env
refusing = record logging {
  parse_request = λ s. Parsed.failed tt;
  emit_error_page =
      λ x m seed scope. (do m' ← emit_error_page byte_buffer (http_status x) m; ret (m', scope));
}

react-Answered_example :
    Answered refusing
      (bad_headers tt)
      tt
      (holding (codes "?"))
      []
      (react refusing (Event.arrived 1) idle tt (holding (codes "?")) [])
react-Answered_example =
    react-Answered refusing byte_buffer_laws (λ x m seed scope. refl) (Event.arrived 1) idle tt
      (holding (codes "?")) [] (bad_headers tt) (BadRequest.at_once (BadHead.unparsed refl))
