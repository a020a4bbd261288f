-- ===== src/Client/Request.antt =====
-- client/request.rs: the request of the client, a wrapper of a message that remembers whether its
-- method is HEAD.
use rotor_http.Prelude.{ℕ, Bool, Bytes, codes, Option, none, some, Outcome, ret, Result, ◌>>=◌}
use rotor_http.Buffer.{BufferOps}
use rotor_http.Std.Ascii.{bytes_eq}
use rotor_http.Version.{Version}
use rotor_http.Message.State.{HeaderError, MessageState, request_start}
use rotor_http.Message.{Message}
use rotor_http.Message

-- The message, and `None` until the request line is written.
pub record Request (Buf : Type 0) : Type 0 where
  pub message : Message Buf
  pub is_head : Option Bool

unfoldable pub new : {Buf : Type 0} → Buf → Request Buf
new buf = record { message = (buf, request_start); is_head = none }

abbrev pub state : {Buf : Type 0} → Request Buf → MessageState
state req = req.message.1

abbrev pub with_message : {Buf A : Type 0} → Request Buf → A × Message Buf → A × Request Buf
with_message req (a, m) = (a, record req { message = m })

module _ {Buf : Type 0} (ops : BufferOps Buf) where
  unfoldable pub start : Bytes → Bytes → Version → Request Buf → Outcome (Request Buf)
  start method path version req = do
    m ← Message.request_line ops method path version req.message
    ret (record { message = m; is_head = some (bytes_eq method (codes "HEAD")) })

  unfoldable pub add_header :
      Bytes → Bytes → Request Buf → Outcome (Result (Unit {0}) HeaderError × Request Buf)
  add_header name value req = do
    r ← Message.add_header ops name value req.message
    ret (with_message req r)

  unfoldable pub add_length :
      ℕ → Request Buf → Outcome (Result (Unit {0}) HeaderError × Request Buf)
  add_length n req = do r ← Message.add_length ops n req.message; ret (with_message req r)

  unfoldable pub add_chunked : Request Buf → Outcome (Result (Unit {0}) HeaderError × Request Buf)
  add_chunked req = do r ← Message.add_chunked ops req.message; ret (with_message req r)

  unfoldable pub done_headers : Request Buf → Outcome (Result Bool HeaderError × Request Buf)
  done_headers req = do r ← Message.done_headers ops req.message; ret (with_message req r)

  unfoldable pub write_body : Bytes → Request Buf → Outcome (Request Buf)
  write_body piece req = do
    m ← Message.write_body ops piece req.message
    ret (record req { message = m })

  unfoldable pub done : Request Buf → Outcome (Request Buf)
  done req = do m ← Message.done ops req.message; ret (record req { message = m })
