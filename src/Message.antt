-- ===== src/Message.antt =====
-- message.rs: a message under construction, in a buffer and a state. `Message` is the source's
-- tuple of both. A method returns the new message, or panics; `&mut self` methods that return a
-- `Result` return it beside the message. `write!` is one write of the formatted text.
pub mod State
pub mod Payload
pub mod Calls
pub mod Parts
pub mod Output
pub mod Automaton
pub mod Silent
pub mod Lengths
use rotor_http.Prelude.{
  ℕ, zero, suc, ◌+◌, ◌-◌, Bool, true, false, not, ◌&&◌, ◌||◌, [], ◌∷◌, ◌++◌, Bytes, codes, crlf,
  length, ltb, leb, ◌==◌, if◌then◌else◌, Outcome, ret, panic, Result, ok, err, ◌>>=◌, ◌>>◌, assert,
  unwrap_ok,
}
use rotor_http.Buffer.{BufferOps}
use rotor_http.Std.Ascii.{eq_ignore_ascii_case}
use rotor_http.Std.Radix.{to_string, to_hex, to_radix}
use rotor_http.Version.{Version}
use rotor_http.Version
use State.{
  Body, normal, head, denied, request, MessageState, response_start, final_response_start,
  request_start, headers, fixed_headers, chunked_headers, bodyless, fixed_body, chunked_body,
  HeaderError, duplicate_content_length, duplicate_transfer_encoding,
  transfer_encoding_after_content_length, content_length_after_transfer_encoding,
  cant_determine_body_size, body_length_header, require_bodyless,
}

abbrev pub Message : Type 0 → Type 0
Message Buf = Buf × MessageState

-- `body == Head`
abbrev pub is_head_body : Body → Bool
is_head_body head = true
is_head_body _ = false

abbrev pub is_length_header : Bytes → Bool
is_length_header name =
    eq_ignore_ascii_case name (codes "Content-Length")
    || eq_ignore_ascii_case name (codes "Transfer-Encoding")

-- A status code of a response with no body: 1xx, 204 and 304.
abbrev pub is_bodyless_code : ℕ → Bool
is_bodyless_code code = (leb 100 code && ltb code 200) || code == 204 || code == 304

-- `matches!(self.1, Headers { close: true, .. } | …)`
abbrev pub closes : MessageState → Bool
closes (headers body close) = close
closes (fixed_headers is_head close n) = close
closes (chunked_headers is_head close) = close
closes _ = false

-- `content_length` is a u64, and `data.len()` fits one.
module _ {Buf : Type 0} (ops : BufferOps Buf) where
  open ops use {write}

  abbrev pub status_line : Version → ℕ → Bytes → Bytes
  status_line version code reason =
      Version.fmt version ++ (32 ∷ (to_string code ++ (32 ∷ (reason ++ crlf))))

  -- The first two arms of `response_status`.
  unfoldable pub final_status : Version → Body → Bool → ℕ → Bytes → Buf → Outcome (Message Buf)
  final_status version body close code reason buf =
      if code == 100
      then panic
      else ret (
        write buf (status_line version code reason),
        headers (if is_bodyless_code code then denied else body) close,
      )

  unfoldable pub response_status : ℕ → Bytes → Message Buf → Outcome (Message Buf)
  unfolding final_status
  response_status code reason (buf, response_start version body close) =
      final_status version body close code reason buf
  response_status code reason (buf, final_response_start version body close) =
      final_status version body close code reason buf
  response_status code reason _ = panic

  unfoldable pub request_line : Bytes → Bytes → Version → Message Buf → Outcome (Message Buf)
  request_line method path version (buf, request_start) = ret (
    write buf (method ++ (32 ∷ (path ++ (32 ∷ (Version.fmt version ++ crlf))))),
    headers request false,
  )
  request_line method path version _ = panic

  unfoldable pub response_continue : Message Buf → Outcome (Message Buf)
  response_continue (buf, response_start version body close) = ret (
    write buf (Version.fmt version ++ codes " 100 Continue\r\n\r\n"),
    final_response_start version body close,
  )
  response_continue _ = panic

  unfoldable pub write_header : Bytes → Bytes → Buf → Buf
  write_header name value buf = write (write (write (write buf name) (codes ": ")) value) crlf

  -- The match of `add_header`, behind its guard.
  unfoldable pub put_header :
      Bytes → Bytes → Message Buf → Outcome (Result (Unit {0}) HeaderError × Message Buf)
  put_header name value (buf, headers b c) = ret (ok tt, (write_header name value buf, headers b c))
  put_header name value (buf, fixed_headers h c n) =
      ret (ok tt, (write_header name value buf, fixed_headers h c n))
  put_header name value (buf, chunked_headers h c) =
      ret (ok tt, (write_header name value buf, chunked_headers h c))
  put_header name value _ = panic

  unfoldable pub add_header :
      Bytes → Bytes → Message Buf → Outcome (Result (Unit {0}) HeaderError × Message Buf)
  unfolding put_header
  add_header name value m =
      if is_length_header name then ret (err body_length_header, m) else put_header name value m

  unfoldable pub add_length :
      ℕ → Message Buf → Outcome (Result (Unit {0}) HeaderError × Message Buf)
  add_length n (buf, fixed_headers h c k) =
      ret (err duplicate_content_length, (buf, fixed_headers h c k))
  add_length n (buf, chunked_headers h c) =
      ret (err content_length_after_transfer_encoding, (buf, chunked_headers h c))
  add_length n (buf, headers denied c) = ret (err require_bodyless, (buf, headers denied c))
  add_length n (buf, headers body c) = ret (
    ok tt,
    (
      write_header (codes "Content-Length") (to_string n) buf,
      fixed_headers (is_head_body body) c n,
    ),
  )
  add_length n _ = panic

  unfoldable pub add_chunked : Message Buf → Outcome (Result (Unit {0}) HeaderError × Message Buf)
  add_chunked (buf, fixed_headers h c k) =
      ret (err transfer_encoding_after_content_length, (buf, fixed_headers h c k))
  add_chunked (buf, chunked_headers h c) =
      ret (err duplicate_transfer_encoding, (buf, chunked_headers h c))
  add_chunked (buf, headers denied c) = ret (err require_bodyless, (buf, headers denied c))
  add_chunked (buf, headers body c) = ret (
    ok tt,
    (
      write_header (codes "Transfer-Encoding") (codes "chunked") buf,
      chunked_headers (is_head_body body) c,
    ),
  )
  add_chunked _ = panic

  -- `add_header("Connection", "close").unwrap()` of a message that closes.
  unfoldable pub close_header : Message Buf → Outcome (Message Buf)
  close_header (buf, state) =
      if closes state
      then (do
        (r, m) ← add_header (codes "Connection") (codes "close") (buf, state)
        unwrap_ok r
        ret m)
      else ret (buf, state)

  -- The match of `done_headers`, with the empty line that is written behind it.
  unfoldable pub end_headers : Message Buf → Outcome (Result Bool HeaderError × Message Buf)
  end_headers (buf, headers denied c) = ret (ok false, (write buf crlf, bodyless))
  end_headers (buf, headers request c) = ret (ok true, (write buf crlf, fixed_body false 0))
  end_headers (buf, headers normal c) = ret (err cant_determine_body_size, (buf, headers normal c))
  end_headers (buf, fixed_headers is_head c n) =
      ret (ok (not is_head), (write buf crlf, fixed_body is_head n))
  end_headers (buf, chunked_headers is_head c) =
      ret (ok (not is_head), (write buf crlf, chunked_body is_head))
  end_headers _ = panic

  unfoldable pub done_headers : Message Buf → Outcome (Result Bool HeaderError × Message Buf)
  unfolding close_header end_headers
  done_headers m = do m' ← close_header m; end_headers m'

  -- A chunk: the size in hexadecimal, the data and the line ends.
  unfoldable pub write_chunk : Bytes → Buf → Buf
  write_chunk bytes buf = write (write (write buf (to_hex (length bytes) ++ crlf)) bytes) crlf

  unfoldable pub write_body : Bytes → Message Buf → Outcome (Message Buf)
  unfolding write_chunk
  write_body bytes (buf, fixed_body is_head content_length) =
      if ltb content_length (length bytes)
      then panic
      else ret (
        if is_head then buf else write buf bytes,
        fixed_body is_head (content_length - length bytes),
      )
  write_body bytes (buf, chunked_body is_head) = ret (
    if not is_head && ltb 0 (length bytes) then write_chunk bytes buf else buf,
    chunked_body is_head,
  )
  write_body bytes _ = panic

  unfoldable pub done : Message Buf → Outcome (Message Buf)
  done (buf, bodyless) = ret (buf, MessageState.done)
  done (buf, fixed_body true n) = ret (buf, MessageState.done)
  done (buf, chunked_body true) = ret (buf, MessageState.done)
  done (buf, fixed_body false zero) = ret (buf, MessageState.done)
  done (buf, fixed_body false (suc n)) = panic
  done (buf, chunked_body false) = ret (write buf (codes "0\r\n\r\n"), MessageState.done)
  done (buf, MessageState.done) = ret (buf, MessageState.done)
  done _ = panic

unfoldable pub is_started : MessageState → Bool
is_started request_start = false
is_started (response_start version body close) = false
is_started (final_response_start version body close) = false
is_started _ = true

unfoldable pub is_complete : MessageState → Bool
is_complete MessageState.done = true
is_complete _ = false
