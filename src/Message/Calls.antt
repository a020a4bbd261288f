-- ===== src/Message/Calls.antt =====
-- A handler's use of a message: any sequence of its methods.
use rotor_http.Prelude.{
  ℕ, List, [], ◌∷◌, Bytes, Option, none, some, Outcome, ret, Result, ok, err, ◌>>=◌,
}
use rotor_http.Buffer.{BufferOps}
use rotor_http.Version.{Version}
use rotor_http.Message.State.{HeaderError}
use rotor_http.Message.{Message}
use rotor_http.Message

pub data Call : Type 0 where
  status : ℕ → Bytes → Call
  line : Bytes → Bytes → Version → Call
  continue_line : Call
  header : Bytes → Bytes → Call
  length_header : ℕ → Call
  chunked_header : Call
  end_of_headers : Call
  body : Bytes → Call
  finish : Call

abbrev pub refusal {ℓ} : {A : Type ℓ} → Result A HeaderError → Option HeaderError
refusal (ok a) = none
refusal (err e) = some e

module _ {Buf : Type 0} (ops : BufferOps Buf) where
  -- A method's effect, with the error that it returns, if it does.
  unfoldable pub perform : Call → Message Buf → Outcome (Option HeaderError × Message Buf)
  perform (status code reason) m = do m' ← Message.response_status ops code reason m; ret (none, m')
  perform (line method path v) m = do m' ← Message.request_line ops method path v m; ret (none, m')
  perform continue_line m = do m' ← Message.response_continue ops m; ret (none, m')
  perform (header name value) m = do
    (r, m') ← Message.add_header ops name value m
    ret (refusal r, m')
  perform (length_header n) m = do (r, m') ← Message.add_length ops n m; ret (refusal r, m')
  perform chunked_header m = do (r, m') ← Message.add_chunked ops m; ret (refusal r, m')
  perform end_of_headers m = do (r, m') ← Message.done_headers ops m; ret (refusal r, m')
  perform (body bytes) m = do m' ← Message.write_body ops bytes m; ret (none, m')
  perform finish m = do m' ← Message.done ops m; ret (none, m')

  -- The calls in order; an error that a method returns does not stop the handler.
  unfoldable pub run : List Call → Message Buf → Outcome (Message Buf)
  run [] m = ret m
  run (c ∷ cs) m = do (r, m') ← perform c m; run cs m'
