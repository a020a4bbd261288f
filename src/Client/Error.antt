-- ===== src/Client/Error.antt =====
-- client/error.rs: what the handlers are told of a failed response or connection. `Io` is the error
-- type of the system; the payload of the chunk size error is left out.
use rotor_http.Prelude.{ℕ, Outcome, ret, panic}

pub data ProtocolError (Io : Type 0) : Type 0 where
  connect_error : Io → ProtocolError Io
  connection_closed : ProtocolError Io
  read_error write_error : Io → ProtocolError Io

pub data ResponseError (Io : Type 0) : Type 0 where
  chunk_is_too_large : ℕ → ℕ → ResponseError Io
  invalid_chunk_size : ResponseError Io
  connection : ProtocolError Io → ResponseError Io

-- `rotor_stream::Exception`
pub data Exception (Io : Type 0) : Type 0 where
  end_of_stream limit_reached : Exception Io
  read_failed write_failed connect_failed : Io → Exception Io

-- `From<rotor_stream::Exception>`; `LimitReached` is `unreachable!()`.
unfoldable pub protocol_error : {Io : Type 0} → Exception Io → Outcome (ProtocolError Io)
protocol_error end_of_stream = ret connection_closed
protocol_error limit_reached = panic
protocol_error (read_failed e) = ret (read_error e)
protocol_error (write_failed e) = ret (write_error e)
protocol_error (connect_failed e) = ret (connect_error e)
