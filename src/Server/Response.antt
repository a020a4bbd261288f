-- ===== src/Server/Response.antt =====
-- server/response.rs: the response of the server, a wrapper of a message; and the error page of
-- server/protocol.rs that is built with it.
pub mod ErrorPage
use rotor_http.Prelude.{
  ℕ, Bool, true, false, ◌||◌, [], ◌∷◌, ◌++◌, Bytes, codes, length, if◌then◌else◌, Outcome, ret,
  Result, ◌>>=◌, ◌>>◌, unwrap_ok,
}
use rotor_http.Buffer.{BufferOps}
use rotor_http.Std.Radix.{to_string}
use rotor_http.Version.{Version, http10}
use rotor_http.Message.State.{normal, head, denied, HeaderError, MessageState, response_start}
use rotor_http.Message.{Message}
use rotor_http.Message

abbrev pub is_http10 : Version → Bool
is_http10 http10 = true
is_http10 _ = false

-- `Response::new`; `MessageState::with` pairs the state with the buffer.
unfoldable pub new : {Buf : Type 0} → Buf → Version → Bool → Bool → Message Buf
new buf version is_head do_close =
    (buf, response_start version (if is_head then head else normal) (do_close || is_http10 version))

abbrev pub not_implemented_head : Bytes
not_implemented_head =
    codes "HTTP/1.0 501 Not Implemented\r\nContent-Type: text/plain\r\nContent-Length: 21\r\n\r\n"

abbrev pub not_implemented : Bytes
not_implemented = not_implemented_head ++ codes "501 Not Implemented\r\n"

-- `state`
abbrev pub state : {Buf : Type 0} → Message Buf → MessageState
state m = m.1

-- The text of the error page.
unfoldable pub page : ℕ → Bytes → Bytes
page code reason =
    codes "<h1>"
    ++ (to_string code
        ++ (32 ∷ (reason ++ codes "</h1>\n<p><small>Served for you by rotor-http</small></p>\n")))

module _ {Buf : Type 0} (ops : BufferOps Buf) where
  open ops use {write}

  -- `finish`: whether the message is complete, and the buffer with a last resort in it.
  unfoldable pub finish : Message Buf → Bool × Buf
  finish (buf, MessageState.done) = (true, buf)
  finish (buf, response_start v denied c) = (false, write buf not_implemented_head)
  finish (buf, response_start v head c) = (false, write buf not_implemented_head)
  finish (buf, response_start v normal c) = (false, write buf not_implemented)
  finish (buf, s) = (false, buf)

  abbrev pub response_continue : Message Buf → Outcome (Message Buf)
  response_continue = Message.response_continue ops

  abbrev pub status : ℕ → Bytes → Message Buf → Outcome (Message Buf)
  status = Message.response_status ops

  abbrev pub add_header :
      Bytes → Bytes → Message Buf → Outcome (Result (Unit {0}) HeaderError × Message Buf)
  add_header = Message.add_header ops

  abbrev pub add_length : ℕ → Message Buf → Outcome (Result (Unit {0}) HeaderError × Message Buf)
  add_length = Message.add_length ops

  abbrev pub add_chunked : Message Buf → Outcome (Result (Unit {0}) HeaderError × Message Buf)
  add_chunked = Message.add_chunked ops

  abbrev pub done_headers : Message Buf → Outcome (Result Bool HeaderError × Message Buf)
  done_headers = Message.done_headers ops

  abbrev pub write_body : Bytes → Message Buf → Outcome (Message Buf)
  write_body = Message.write_body ops

  abbrev pub done : Message Buf → Outcome (Message Buf)
  done = Message.done ops

  -- `Server::emit_error_page`, the default: the status and reason of the error, and a short page.
  unfoldable pub emit_error_page : ℕ × Bytes → Message Buf → Outcome (Message Buf)
  emit_error_page (code, reason) m = do
    m₁ ← status code reason m
    (r₂, m₂) ← add_length (length (page code reason)) m₁
    unwrap_ok r₂
    (r₃, m₃) ← add_header (codes "Content-Type") (codes "text/html") m₂
    unwrap_ok r₃
    (r₄, m₄) ← done_headers m₃
    _expects ← unwrap_ok r₄
    m₅ ← write_body (page code reason) m₄
    done m₅
