-- ===== src/Message/Parts.antt =====
-- What the methods of a message put into the buffer, piece by piece.
pub mod Written
use rotor_http.Prelude.{
  ℕ, zero, suc, ◌≡◌, refl, sym, ap, ◌∙◌, Bool, true, false, not, ◌&&◌, List, [], ◌∷◌, ◌++◌,
  append_assoc, append-nil, arith, Bytes, codes, crlf, ltb, length, if◌then◌else◌, Bool-cases, inl,
  inr, ◌==◌, Option, none, some, Outcome, ret, panic, ◌>>=◌,
}
use rotor_http.Buffer.{BufferOps, BufferLaws}
use rotor_http.Message.Calls.{
  Call, status, line, continue_line, header, length_header, chunked_header, end_of_headers, body,
  finish, perform, refusal, run,
}
use rotor_http.Message.Payload.Dechunk.{chunk, last_chunk}
use rotor_http.Message.State.{
  Body, normal, head, denied, request, HeaderError, MessageState, response_start,
  final_response_start, request_start, headers, fixed_headers, chunked_headers, bodyless,
  fixed_body, chunked_body,
}
use rotor_http.Message.{
  Message, is_length_header, closes, final_status, response_status, request_line, response_continue,
  write_header, put_header, add_header, add_length, add_chunked, close_header, end_headers,
  done_headers, write_body,
}
use rotor_http.Message
use rotor_http.Std.Ascii.{eq_ignore_ascii_case, to_ascii_lowercase}
use rotor_http.Std.Radix.{to_string}
use rotor_http.Version.{Version}
use rotor_http.Version

-- A piece of the output: a line that starts a message (or a whole 100 Continue), a header, the empty
-- line behind the headers, and bytes of the body.
pub data Part : Type 0 where
  start : Bytes → Part
  field : Bytes → Bytes → Part
  blank : Part
  payload : Bytes → Part

abbrev pub text_of : Part → Bytes
text_of (start s) = s
text_of (field name value) = name ++ (codes ": " ++ (value ++ crlf))
text_of blank = crlf
text_of (payload d) = d

abbrev pub render : List Part → Bytes
render [] = []
render (p ∷ ps) = text_of p ++ render ps

-- The headers that declare the length of a body.
abbrev pub length_fields : List Part → ℕ
length_fields [] = 0
length_fields (field name value ∷ ps) =
    if is_length_header name then suc (length_fields ps) else length_fields ps
length_fields (_ ∷ ps) = length_fields ps

abbrev pub status_parts : ℕ → Bytes → MessageState → List Part
status_parts code reason (response_start v b c) =
    start (Version.fmt v ++ (32 ∷ (to_string code ++ (32 ∷ (reason ++ crlf))))) ∷ []
status_parts code reason (final_response_start v b c) =
    start (Version.fmt v ++ (32 ∷ (to_string code ++ (32 ∷ (reason ++ crlf))))) ∷ []
status_parts code reason _ = []

abbrev pub continue_parts : MessageState → List Part
continue_parts (response_start v b c) = start (Version.fmt v ++ codes " 100 Continue\r\n\r\n") ∷ []
continue_parts _ = []

abbrev pub close_parts : Bool → List Part
close_parts true = field (codes "Connection") (codes "close") ∷ []
close_parts false = []

abbrev pub body_parts : Bytes → MessageState → List Part
body_parts d (fixed_body false n) = payload d ∷ []
body_parts d (chunked_body false) = if ltb 0 (length d) then payload (chunk d) ∷ [] else []
body_parts d _ = []

abbrev pub finish_parts : MessageState → List Part
finish_parts (chunked_body false) = payload last_chunk ∷ []
finish_parts _ = []

-- A part that is there if the call has no error.
abbrev pub unless_error : Option HeaderError → Part → List Part
unless_error none p = p ∷ []
unless_error (some e) p = []

-- What a call writes, by the error that it returned and the state that it was made in.
abbrev pub parts : Call → Option HeaderError → MessageState → List Part
parts (status code reason) r s = status_parts code reason s
parts (line method path v) r s =
    start (method ++ (32 ∷ (path ++ (32 ∷ (Version.fmt v ++ crlf))))) ∷ []
parts continue_line r s = continue_parts s
parts (header name value) r s = unless_error r (field name value)
parts (length_header n) r s = unless_error r (field (codes "Content-Length") (to_string n))
parts chunked_header r s = unless_error r (field (codes "Transfer-Encoding") (codes "chunked"))
parts end_of_headers r s = close_parts (closes s) ++ unless_error r blank
parts (body d) r s = body_parts d s
parts finish r s = finish_parts s
