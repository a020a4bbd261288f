-- ===== src/Server/Error.antt =====
-- server/error.rs: why a request is refused, and the status that says so. `E` is the error type
-- of the header parser; the payloads of the UTF-8 and the chunk size error are left out.
use rotor_http.Prelude.{ℕ, Bytes, codes}
use rotor_http.Std.Radix.{ParseIntError}

pub data RequestError (E : Type 0) : Type 0 where
  headers_are_too_large : RequestError E
  bad_headers : E → RequestError E
  invalid_chunk_size duplicate_content_length headers_received : RequestError E
  payload_too_large premature_end_of_stream : RequestError E
  headers_timeout request_timeout handler_timeout : RequestError E
  bad_utf8 : RequestError E
  bad_content_length : ParseIntError → RequestError E

unfoldable pub http_status : {E : Type 0} → RequestError E → ℕ × Bytes
http_status headers_are_too_large = (431, codes "Request Header Fields Too Large")
http_status (bad_headers e) = (400, codes "Bad Request")
http_status bad_utf8 = (400, codes "Bad Request")
http_status (bad_content_length e) = (400, codes "Bad Request")
http_status invalid_chunk_size = (400, codes "Bad Request")
http_status duplicate_content_length = (400, codes "Bad Request")
http_status headers_received = (400, codes "Bad Request")
http_status payload_too_large = (413, codes "Payload Too Large")
http_status headers_timeout = (408, codes "Request Timeout")
http_status request_timeout = (408, codes "Request Timeout")
http_status handler_timeout = (504, codes "Gateway Timeout")
http_status premature_end_of_stream = (400, codes "Bad Request")
