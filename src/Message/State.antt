-- ===== src/Message/State.antt =====
-- message.rs: the states of a message and the errors of its methods.
use rotor_http.Prelude.{ℕ, Bool}
use rotor_http.Version.{Version}

pub data HeaderError : Type 0 where
  duplicate_content_length duplicate_transfer_encoding : HeaderError
  transfer_encoding_after_content_length content_length_after_transfer_encoding : HeaderError
  cant_determine_body_size body_length_header require_bodyless : HeaderError

pub data Body : Type 0 where
  normal head denied request : Body

-- The flags are `is_head` and `close`, the number is `content_length`.
pub data MessageState : Type 0 where
  response_start : Version → Body → Bool → MessageState
  final_response_start : Version → Body → Bool → MessageState
  request_start : MessageState
  headers : Body → Bool → MessageState
  fixed_headers : Bool → Bool → ℕ → MessageState
  chunked_headers : Bool → Bool → MessageState
  bodyless : MessageState
  fixed_body : Bool → ℕ → MessageState
  chunked_body : Bool → MessageState
  done : MessageState
