-- ===== src/Message/Automaton/Sound.antt =====
-- The methods follow the automaton, and do whatever it allows.
use rotor_http.Prelude.{
  ℕ, zero, suc, ◌≡◌, refl, Bool, true, false, Bytes, codes, ◌==◌, Option, none, Outcome, ret, panic,
  ◌>>=◌, length, ltb, Bool-cases, inl, inr, ==_iff, ltb→le,
}
use rotor_http.Buffer.{BufferOps}
use rotor_http.Message.State.{
  Body, normal, head, denied, request, HeaderError, MessageState, response_start,
  final_response_start, request_start, headers, fixed_headers, chunked_headers, bodyless,
  fixed_body, chunked_body,
}
use rotor_http.Message.{
  Message, is_length_header, is_bodyless_code, final_status, response_status, request_line,
  response_continue, add_header, add_length, add_chunked, close_header, end_headers, done_headers,
  write_body,
}
use rotor_http.Message
use rotor_http.Message.Automaton.{Step, InHeaders, BeforeStatus}
use rotor_http.Std.Ascii.{eq_ignore_ascii_case, to_ascii_lowercase}
use rotor_http.Message.Calls.{
  Call, status, line, continue_line, header, length_header, chunked_header, end_of_headers, body,
  finish, perform, refusal,
}

module _ {Buf : Type 0} (ops : BufferOps Buf) where
  -- The outcome of a call is a step of the automaton.
  Follows : MessageState → Call → Outcome (Option HeaderError × Message Buf) → Type 0
  Follows s c panic = Unit
  Follows s c (ret (r, (b, s'))) = Step s c r s'

  final_status-Follows :
      (code : ℕ) (reason : Bytes) (b : Buf) (v : _) (bd : Body) (c : Bool) {s : MessageState}
      → BeforeStatus bd c s
      → Follows s (status code reason) (do m ← final_status ops v bd c code reason b; ret (none, m))
  unfolding Follows final_status
  final_status-Follows code reason b v bd c h = elim (Bool-cases (code == 100)) [
    | inl e ↦ rw e tt
    | inr ne ↦ rw ne (Step.put_status code reason h (λ e. cc ((==_iff code 100).1 e, ne)))
  ]

  add_header-Follows :
      (name value : Bytes) (b : Buf) (s : MessageState)
      → Follows s
          (header name value)
          (do (r, m) ← add_header ops name value (b, s); ret (refusal r, m))
  unfolding Follows add_header
  add_header-Follows name value b s = elim (Bool-cases (is_length_header name)) [
    | inl e ↦ rw e (Step.refuse_header name value e)
    | inr e ↦ rw e (added s e)
  ]
    where
      added :
          (s : MessageState)
          → is_length_header name ≡ false
          → Follows s
              (header name value)
              (do (r, m) ← Message.put_header ops name value (b, s); ret (refusal r, m))
      added (headers bd c) e = Step.put_header name value e InHeaders.undecided
      added (fixed_headers h c n) e = Step.put_header name value e InHeaders.with_length
      added (chunked_headers h c) e = Step.put_header name value e InHeaders.with_chunks
      added _ e = tt

  write_body-Follows :
      (d : Bytes) (b : Buf) (s : MessageState)
      → Follows s (body d) (do m ← write_body ops d (b, s); ret (none, m))
  unfolding Follows write_body
  write_body-Follows d b (fixed_body h n) = elim (Bool-cases (ltb n (length d))) [
    | inl over ↦ rw over tt
    | inr fits ↦ rw fits (Step.put_fixed d (ltb→le n (length d) fits))
  ]
  write_body-Follows d b (chunked_body h) = Step.put_chunk d
  write_body-Follows d b _ = tt

  connection_plain : is_length_header (codes "Connection") ≡ false
  unfolding eq_ignore_ascii_case to_ascii_lowercase
  connection_plain = refl

  -- The header that a closing message adds does not touch the state.
  done_headers-Follows :
      (b : Buf) (s : MessageState)
      → Follows s end_of_headers (do (r, m) ← done_headers ops (b, s); ret (refusal r, m))
  unfolding Follows done_headers add_header eq_ignore_ascii_case to_ascii_lowercase
  done_headers-Follows b (headers denied false) = Step.end_denied
  done_headers-Follows b (headers denied true) = Step.end_denied
  done_headers-Follows b (headers request false) = Step.end_request
  done_headers-Follows b (headers request true) = Step.end_request
  done_headers-Follows b (headers normal false) = Step.end_unknown
  done_headers-Follows b (headers normal true) = Step.end_unknown
  done_headers-Follows b (headers head false) = tt
  done_headers-Follows b (headers head true) = tt
  done_headers-Follows b (fixed_headers h false n) = Step.end_fixed
  done_headers-Follows b (fixed_headers h true n) = Step.end_fixed
  done_headers-Follows b (chunked_headers h false) = Step.end_chunked
  done_headers-Follows b (chunked_headers h true) = Step.end_chunked
  done_headers-Follows b _ = tt

  finish-Follows :
      (b : Buf) (s : MessageState)
      → Follows s finish (do m ← Message.done ops (b, s); ret (none, m))
  unfolding Follows Message.done
  finish-Follows b bodyless = Step.finish_bodyless
  finish-Follows b (fixed_body false zero) = Step.finish_fixed refl
  finish-Follows b (fixed_body false (suc n)) = tt
  finish-Follows b (fixed_body true n) = Step.finish_head
  finish-Follows b (chunked_body false) = Step.finish_chunked
  finish-Follows b (chunked_body true) = Step.finish_chunked
  finish-Follows b MessageState.done = Step.finish_done
  finish-Follows b _ = tt

  add_length-Follows :
      (n : ℕ) (b : Buf) (s : MessageState)
      → Follows s (length_header n) (do (r, m) ← add_length ops n (b, s); ret (refusal r, m))
  unfolding Follows add_length
  add_length-Follows n b (fixed_headers h c k) = Step.length_twice n
  add_length-Follows n b (chunked_headers h c) = Step.length_after_chunked n
  add_length-Follows n b (headers denied c) = Step.length_denied n
  add_length-Follows n b (headers normal c) = Step.put_length n (λ e. cc)
  add_length-Follows n b (headers head c) = Step.put_length n (λ e. cc)
  add_length-Follows n b (headers request c) = Step.put_length n (λ e. cc)
  add_length-Follows n b _ = tt

  add_chunked-Follows :
      (b : Buf) (s : MessageState)
      → Follows s chunked_header (do (r, m) ← add_chunked ops (b, s); ret (refusal r, m))
  unfolding Follows add_chunked
  add_chunked-Follows b (fixed_headers h c k) = Step.chunked_after_length
  add_chunked-Follows b (chunked_headers h c) = Step.chunked_twice
  add_chunked-Follows b (headers denied c) = Step.chunked_denied
  add_chunked-Follows b (headers normal c) = Step.put_chunked (λ e. cc)
  add_chunked-Follows b (headers head c) = Step.put_chunked (λ e. cc)
  add_chunked-Follows b (headers request c) = Step.put_chunked (λ e. cc)
  add_chunked-Follows b _ = tt

  perform-Follows : (c : Call) (b : Buf) (s : MessageState) → Follows s c (perform ops c (b, s))
  unfolding Follows perform response_status request_line response_continue
  perform-Follows (status code reason) b (response_start v bd c) =
      final_status-Follows code reason b v bd c BeforeStatus.nothing_sent
  perform-Follows (status code reason) b (final_response_start v bd c) =
      final_status-Follows code reason b v bd c BeforeStatus.continue_sent
  perform-Follows (status code reason) b _ = tt
  perform-Follows (line method path v) b request_start = Step.put_line method path v
  perform-Follows (line method path v) b _ = tt
  perform-Follows continue_line b (response_start v bd c) = Step.put_continue
  perform-Follows continue_line b _ = tt
  perform-Follows (header name value) b s = add_header-Follows name value b s
  perform-Follows (length_header n) b s = add_length-Follows n b s
  perform-Follows chunked_header b s = add_chunked-Follows b s
  perform-Follows end_of_headers b s = done_headers-Follows b s
  perform-Follows (body d) b s = write_body-Follows d b s
  perform-Follows finish b s = finish-Follows b s

  -- A method that returns has made a step of the protocol, with the error that the protocol
  -- prescribes.
  pub perform-Step :
      (c : Call) (m m' : Message Buf) (r : Option HeaderError)
      → perform ops c m ≡ ret (r, m')
      → Step m.1 c r m'.1
  unfolding Follows
  perform-Step c (b, s) m' r h = rw h at (perform-Follows c b s)
