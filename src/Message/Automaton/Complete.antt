-- ===== src/Message/Automaton/Complete.antt =====
-- Whatever the automaton allows, the methods do: no panic where a step exists.
use rotor_http.Prelude.{
  ℕ, ◌≡◌, ◌≢◌, refl, Bool, true, false, arith, Bytes, Option, none, Outcome, ret, panic, ◌>>=◌,
  length, le→ltb, ◌==◌, if◌then◌else◌,
}
use rotor_http.Buffer.{BufferOps}
use rotor_http.Std.Ascii.{eq_ignore_ascii_case, to_ascii_lowercase}
use rotor_http.Message.State.{
  Body, denied, HeaderError, MessageState, headers, fixed_headers, chunked_headers,
}
use rotor_http.Message.{
  Message, is_length_header, response_status, request_line, response_continue, add_header,
  add_length, add_chunked, done_headers, write_body,
}
use rotor_http.Message
use rotor_http.Message.Automaton.{Step, InHeaders, BeforeStatus}
use rotor_http.Message.Calls.{Call, perform, refusal}

module _ {Buf : Type 0} where
  -- The call returns with this error, if any, in this state.
  Ends : Option HeaderError → MessageState → Outcome (Option HeaderError × Message Buf) → Type 0
  Ends r s panic = ⊥
  Ends r s (ret (r', (b, s'))) = (r' ≡ r) × (s' ≡ s)

  Ends-ret :
      (r : Option HeaderError) (s : MessageState) (o : Outcome (Option HeaderError × Message Buf))
      → Ends r s o
      → (b : Buf) × (o ≡ ret (r, (b, s)))
  unfolding Ends
  Ends-ret r s panic h = absurd h
  Ends-ret r s (ret (r', (b, s'))) h = (b, cc)

not_continue : (code : ℕ) → code ≢ 100 → (code == 100) ≡ false
not_continue code ne = ground arith

module _ {Buf : Type 0} (ops : BufferOps Buf) where
  status-Ends :
      (code : ℕ) (reason : Bytes) (b : Buf) {s : MessageState} {bd : Body} {c : Bool}
      → BeforeStatus bd c s
      → code ≢ 100
      → Ends none
          (headers (if Message.is_bodyless_code code then denied else bd) c)
          (do m ← response_status ops code reason (b, s); ret (none, m))
  unfolding Ends response_status
  status-Ends code reason b BeforeStatus.nothing_sent ne = rw (not_continue code ne) (refl, refl)
  status-Ends code reason b BeforeStatus.continue_sent ne = rw (not_continue code ne) (refl, refl)

  header-Ends :
      (name value : Bytes) (b : Buf) {s : MessageState}
      → is_length_header name ≡ false
      → InHeaders s
      → Ends none s (do (r, m) ← add_header ops name value (b, s); ret (refusal r, m))
  unfolding Ends add_header
  header-Ends name value b e InHeaders.undecided = rw e (refl, refl)
  header-Ends name value b e InHeaders.with_length = rw e (refl, refl)
  header-Ends name value b e InHeaders.with_chunks = rw e (refl, refl)

  length-Ends :
      (n : ℕ) (b : Buf) (bd : Body) (c : Bool)
      → bd ≢ denied
      → Ends none
          (fixed_headers (Message.is_head_body bd) c n)
          (do (r, m) ← add_length ops n (b, headers bd c); ret (refusal r, m))
  unfolding Ends add_length
  length-Ends n b denied c ne = absurd (ne refl)
  length-Ends n b _ c ne = (refl, refl)

  chunked-Ends :
      (b : Buf) (bd : Body) (c : Bool)
      → bd ≢ denied
      → Ends none
          (chunked_headers (Message.is_head_body bd) c)
          (do (r, m) ← add_chunked ops (b, headers bd c); ret (refusal r, m))
  unfolding Ends add_chunked
  chunked-Ends b denied c ne = absurd (ne refl)
  chunked-Ends b _ c ne = (refl, refl)

  Step-Ends :
      (b : Buf) {c : Call} {s s' : MessageState} {r : Option HeaderError}
      → Step s c r s'
      → Ends r s' (perform ops c (b, s))
  unfolding Ends perform request_line response_continue add_header add_length add_chunked
      done_headers write_body Message.done eq_ignore_ascii_case to_ascii_lowercase
  Step-Ends b (Step.put_status code reason h ne) = status-Ends code reason b h ne
  Step-Ends b (Step.put_line method path v) = (refl, refl)
  Step-Ends b Step.put_continue = (refl, refl)
  Step-Ends b (Step.refuse_header name value e) = rw e (refl, refl)
  Step-Ends b (Step.put_header name value e h) = header-Ends name value b e h
  Step-Ends b (Step.put_length {b = bd} {c} n ne) = length-Ends n b bd c ne
  Step-Ends b (Step.length_denied n) = (refl, refl)
  Step-Ends b (Step.length_twice n) = (refl, refl)
  Step-Ends b (Step.length_after_chunked n) = (refl, refl)
  Step-Ends b (Step.put_chunked {b = bd} {c} ne) = chunked-Ends b bd c ne
  Step-Ends b Step.chunked_denied = (refl, refl)
  Step-Ends b Step.chunked_twice = (refl, refl)
  Step-Ends b Step.chunked_after_length = (refl, refl)
  Step-Ends b (Step.end_denied {c = false}) = (refl, refl)
  Step-Ends b (Step.end_denied {c = true}) = (refl, refl)
  Step-Ends b (Step.end_request {c = false}) = (refl, refl)
  Step-Ends b (Step.end_request {c = true}) = (refl, refl)
  Step-Ends b (Step.end_unknown {c = false}) = (refl, refl)
  Step-Ends b (Step.end_unknown {c = true}) = (refl, refl)
  Step-Ends b (Step.end_fixed {c = false}) = (refl, refl)
  Step-Ends b (Step.end_fixed {c = true}) = (refl, refl)
  Step-Ends b (Step.end_chunked {c = false}) = (refl, refl)
  Step-Ends b (Step.end_chunked {c = true}) = (refl, refl)
  Step-Ends b (Step.put_fixed {n = n} d le) = rw (le→ltb n (length d) le) (refl, refl)
  Step-Ends b (Step.put_chunk d) = (refl, refl)
  Step-Ends b Step.finish_bodyless = (refl, refl)
  Step-Ends b (Step.finish_fixed e) = rw e (refl, refl)
  Step-Ends b Step.finish_head = (refl, refl)
  Step-Ends b (Step.finish_chunked {h = false}) = (refl, refl)
  Step-Ends b (Step.finish_chunked {h = true}) = (refl, refl)
  Step-Ends b Step.finish_done = (refl, refl)

  -- Where the protocol has a step, the method does not panic: it returns with the error and the
  -- state that the step names.
  pub Step-perform :
      (c : Call) (b : Buf) (s s' : MessageState) (r : Option HeaderError)
      → Step s c r s'
      → (b' : Buf) × (perform ops c (b, s) ≡ ret (r, (b', s')))
  Step-perform c b s s' r st = Ends-ret r s' (perform ops c (b, s)) (Step-Ends b st)
