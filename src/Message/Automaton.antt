-- ===== src/Message/Automaton.antt =====
-- The protocol of a message as a relation: which method may be called in which state, what error
-- it returns, and the next state. A panic is the absence of a step.
pub mod Sound
pub mod Complete
use rotor_http.Prelude.{
  ℕ, ◌-◌, ◌≤◌, ◌≡◌, ◌≢◌, Bool, true, false, not, Bytes, length, Option, none, some, if◌then◌else◌,
}
use rotor_http.Message.State.{
  Body, normal, head, denied, request, HeaderError, duplicate_content_length,
  duplicate_transfer_encoding, transfer_encoding_after_content_length,
  content_length_after_transfer_encoding, cant_determine_body_size, body_length_header,
  require_bodyless, MessageState, response_start, final_response_start, request_start, headers,
  fixed_headers, chunked_headers, bodyless, fixed_body, chunked_body,
}
use rotor_http.Message.{is_length_header, is_bodyless_code, is_head_body}
use rotor_http.Message.Calls.{
  Call, status, line, continue_line, header, length_header, chunked_header, end_of_headers, body,
  finish,
}

-- The states in which headers may be added.
pub data InHeaders : MessageState → Type 0 where
  undecided : {b : Body} {c : Bool} → InHeaders (headers b c)
  with_length : {h c : Bool} {n : ℕ} → InHeaders (fixed_headers h c n)
  with_chunks : {h c : Bool} → InHeaders (chunked_headers h c)

-- `BeforeStatus v b c s`: the status line may be written in `s`.
pub data BeforeStatus (b : Body) (c : Bool) : MessageState → Type 0 where
  nothing_sent : {v : _} → BeforeStatus b c (response_start v b c)
  continue_sent : {v : _} → BeforeStatus b c (final_response_start v b c)

pub data Step : MessageState → Call → Option HeaderError → MessageState → Type 0 where
  put_status :
      {s : MessageState} {b : Body} {c : Bool} (code : ℕ) (reason : Bytes)
      → BeforeStatus b c s
      → code ≢ 100
      → Step s (status code reason) none (headers (if is_bodyless_code code then denied else b) c)
  put_line :
      (method path : Bytes) (v : _)
      → Step request_start (line method path v) none (headers request false)
  put_continue :
      {v : _} {b : Body} {c : Bool}
      → Step (response_start v b c) continue_line none (final_response_start v b c)
  refuse_header :
      {s : MessageState} (name value : Bytes)
      → is_length_header name ≡ true
      → Step s (header name value) (some body_length_header) s
  put_header :
      {s : MessageState} (name value : Bytes)
      → is_length_header name ≡ false
      → InHeaders s
      → Step s (header name value) none s
  put_length :
      {b : Body} {c : Bool} (n : ℕ)
      → b ≢ denied
      → Step (headers b c) (length_header n) none (fixed_headers (is_head_body b) c n)
  length_denied :
      {c : Bool} (n : ℕ)
      → Step (headers denied c) (length_header n) (some require_bodyless) (headers denied c)
  length_twice :
      {h c : Bool} {k : ℕ} (n : ℕ)
      → Step
          (fixed_headers h c k)
          (length_header n)
          (some duplicate_content_length)
          (fixed_headers h c k)
  length_after_chunked :
      {h c : Bool} (n : ℕ)
      → Step
          (chunked_headers h c)
          (length_header n)
          (some content_length_after_transfer_encoding)
          (chunked_headers h c)
  put_chunked :
      {b : Body} {c : Bool}
      → b ≢ denied
      → Step (headers b c) chunked_header none (chunked_headers (is_head_body b) c)
  chunked_denied :
      {c : Bool} → Step (headers denied c) chunked_header (some require_bodyless) (headers denied c)
  chunked_twice :
      {h c : Bool}
      → Step
          (chunked_headers h c)
          chunked_header
          (some duplicate_transfer_encoding)
          (chunked_headers h c)
  chunked_after_length :
      {h c : Bool} {k : ℕ}
      → Step
          (fixed_headers h c k)
          chunked_header
          (some transfer_encoding_after_content_length)
          (fixed_headers h c k)
  end_denied : {c : Bool} → Step (headers denied c) end_of_headers none bodyless
  end_request : {c : Bool} → Step (headers request c) end_of_headers none (fixed_body false 0)
  end_unknown :
      {c : Bool}
      → Step (headers normal c) end_of_headers (some cant_determine_body_size) (headers normal c)
  end_fixed : {h c : Bool} {n : ℕ} → Step (fixed_headers h c n) end_of_headers none (fixed_body h n)
  end_chunked : {h c : Bool} → Step (chunked_headers h c) end_of_headers none (chunked_body h)
  put_fixed :
      {h : Bool} {n : ℕ} (d : Bytes)
      → length d ≤ n
      → Step (fixed_body h n) (body d) none (fixed_body h (n - length d))
  put_chunk : {h : Bool} (d : Bytes) → Step (chunked_body h) (body d) none (chunked_body h)
  finish_bodyless : Step bodyless finish none MessageState.done
  finish_fixed : {n : ℕ} → n ≡ 0 → Step (fixed_body false n) finish none MessageState.done
  finish_head : {n : ℕ} → Step (fixed_body true n) finish none MessageState.done
  finish_chunked : {h : Bool} → Step (chunked_body h) finish none MessageState.done
  finish_done : Step MessageState.done finish none MessageState.done
