-- ===== src/Message/Silent.antt =====
-- Messages whose body is not sent (answers to HEAD, and 1xx, 204, 304), and finished messages.
use rotor_http.Prelude.{
  ℕ, ◌≡◌, ◌≢◌, refl, Bool, true, false, List, [], ◌∷◌, arith, Bytes, Option, ret, >>=-eq-ret,
  ret_injective, if◌then◌else◌, length, ltb, Bool-cases, inl, inr, ◌⊎◌,
}
use rotor_http.Buffer.{BufferOps}
use rotor_http.Message.State.{
  Body, normal, head, denied, request, HeaderError, MessageState, response_start,
  final_response_start, headers, fixed_headers, chunked_headers, bodyless, fixed_body, chunked_body,
}
use rotor_http.Message.{Message, is_length_header, is_bodyless_code, write_body, add_header}
use rotor_http.Message
use rotor_http.Message.Automaton.{Step, BeforeStatus}
use rotor_http.Message.Automaton.Sound.{perform-Step}
use rotor_http.Message.Calls.{Call, status, body, finish, perform, run}

-- A state of a message that sends no body.
abbrev pub IsSilent : MessageState → Type 0
IsSilent (response_start v head c) = Unit
IsSilent (final_response_start v head c) = Unit
IsSilent (headers head c) = Unit
IsSilent (headers denied c) = Unit
IsSilent (fixed_headers true c n) = Unit
IsSilent (chunked_headers true c) = Unit
IsSilent bodyless = Unit
IsSilent (fixed_body true n) = Unit
IsSilent (chunked_body true) = Unit
IsSilent MessageState.done = Unit
IsSilent _ = ⊥

IsSilent-status :
    {b : Body} {c : Bool} {s : MessageState} (denies : Bool)
    → BeforeStatus b c s
    → IsSilent s
    → IsSilent (headers (if denies then denied else b) c)
IsSilent-status {b = head} false BeforeStatus.nothing_sent h = tt
IsSilent-status {b = head} true BeforeStatus.nothing_sent h = tt
IsSilent-status {b = head} false BeforeStatus.continue_sent h = tt
IsSilent-status {b = head} true BeforeStatus.continue_sent h = tt
IsSilent-status {b = normal} _ BeforeStatus.nothing_sent h = absurd h
IsSilent-status {b = normal} _ BeforeStatus.continue_sent h = absurd h
IsSilent-status {b = denied} _ BeforeStatus.nothing_sent h = absurd h
IsSilent-status {b = denied} _ BeforeStatus.continue_sent h = absurd h
IsSilent-status {b = request} _ BeforeStatus.nothing_sent h = absurd h
IsSilent-status {b = request} _ BeforeStatus.continue_sent h = absurd h

IsSilent-length :
    (b : Body) (c : Bool) (n : ℕ)
    → b ≢ denied
    → IsSilent (headers b c)
    → IsSilent (fixed_headers (Message.is_head_body b) c n)
      × IsSilent (chunked_headers (Message.is_head_body b) c)
IsSilent-length head c n ne h = (tt, tt)
IsSilent-length denied c n ne h = absurd (ne refl)
IsSilent-length normal c n ne h = absurd h
IsSilent-length request c n ne h = absurd h

Step-IsSilent :
    {s s' : MessageState} {c : Call} {r : Option HeaderError}
    → Step s c r s'
    → IsSilent s
    → IsSilent s'
Step-IsSilent (Step.put_status code reason before ne) h =
    IsSilent-status (is_bodyless_code code) before h
Step-IsSilent (Step.put_line m p v) h = absurd h
Step-IsSilent (Step.put_continue {b = head}) h = tt
Step-IsSilent (Step.put_continue {b = normal}) h = absurd h
Step-IsSilent (Step.put_continue {b = denied}) h = absurd h
Step-IsSilent (Step.put_continue {b = request}) h = absurd h
Step-IsSilent (Step.refuse_header name value e) h = h
Step-IsSilent (Step.put_header name value e i) h = h
Step-IsSilent (Step.put_length {b} {c} n ne) h = (IsSilent-length b c n ne h).0
Step-IsSilent (Step.put_chunked {b} {c} ne) h = (IsSilent-length b c 0 ne h).1
Step-IsSilent (Step.length_denied n) h = h
Step-IsSilent (Step.length_twice n) h = h
Step-IsSilent (Step.length_after_chunked n) h = h
Step-IsSilent Step.chunked_denied h = h
Step-IsSilent Step.chunked_twice h = h
Step-IsSilent Step.chunked_after_length h = h
Step-IsSilent Step.end_denied h = tt
Step-IsSilent Step.end_request h = absurd h
Step-IsSilent Step.end_unknown h = absurd h
Step-IsSilent (Step.end_fixed {h = true}) h = tt
Step-IsSilent (Step.end_fixed {h = false}) h = absurd h
Step-IsSilent (Step.end_chunked {h = true}) h = tt
Step-IsSilent (Step.end_chunked {h = false}) h = absurd h
Step-IsSilent (Step.put_fixed {h = true} d le) h = tt
Step-IsSilent (Step.put_fixed {h = false} d le) h = absurd h
Step-IsSilent (Step.put_chunk d) h = h
Step-IsSilent _ h = tt

-- The calls that write a body and its end.
abbrev pub IsPayload : Call → Type 0
IsPayload (body d) = Unit
IsPayload finish = Unit
IsPayload _ = ⊥

Step-status :
    {s s' : MessageState} {c : Call} {r : Option HeaderError} (code : ℕ) (reason : Bytes)
    → Step s c r s'
    → c ≡ status code reason
    → is_bodyless_code code ≡ true
    → IsSilent s'
Step-status code reason (Step.put_status k reason' before ne) e h =
    let same : k ≡ code = cc in rw (same, h) tt
Step-status code reason _ e h = absurd (cc)

module _ {Buf : Type 0} (ops : BufferOps Buf) where
  write_body_silent :
      (d : Bytes) (b : Buf) (s : MessageState) (m : Message Buf)
      → IsSilent s
      → write_body ops d (b, s) ≡ ret m
      → m.0 ≡ b
  unfolding write_body
  write_body_silent d b (fixed_body true n) m h e = elim (Bool-cases (ltb n (length d))) [
    | inl over ↦ absurd (cc (rw over at e))
    | inr fits ↦ cc (rw fits at e)
  ]
  write_body_silent d b (chunked_body true) m h e = cc
  write_body_silent d b _ m h e = ground arith

  done_silent :
      (b : Buf) (s : MessageState) (m : Message Buf)
      → IsSilent s
      → Message.done ops (b, s) ≡ ret m
      → m.0 ≡ b
  unfolding Message.done
  done_silent b (fixed_body true n) m h e = cc
  done_silent b _ m h e = ground arith

  payload_silent :
      (c : Call) (m m' : Message Buf) (r : Option HeaderError)
      → IsSilent m.1
      → IsPayload c
      → perform ops c m ≡ ret (r, m')
      → m'.0 ≡ m.0
  unfolding perform
  payload_silent (body d) (b, s) m' r h p e =
      let (x, wrote, ends) = >>=-eq-ret (write_body ops d (b, s)) _ e in
      cc (write_body_silent d b s x h wrote)
  payload_silent finish (b, s) m' r h p e =
      let (x, wrote, ends) = >>=-eq-ret (Message.done ops (b, s)) _ e in
      cc (done_silent b s x h wrote)
  payload_silent _ (b, s) m' r h p e = absurd p

  run-IsSilent :
      (cs : List Call) (m m' : Message Buf) → IsSilent m.1 → run ops cs m ≡ ret m' → IsSilent m'.1
  unfolding run
  run-IsSilent [] m m' h e = rw (← (ret_injective e)) h
  run-IsSilent (c ∷ cs) m m' h e =
      let ((r, next), stepped, later) = >>=-eq-ret (perform ops c m) _ e in
      run-IsSilent cs next m' (Step-IsSilent (perform-Step ops c m next r stepped) h) later

  status-IsSilent :
      (code : ℕ) (reason : Bytes) (m m' : Message Buf) (r : Option HeaderError)
      → is_bodyless_code code ≡ true
      → perform ops (status code reason) m ≡ ret (r, m')
      → IsSilent m'.1
  status-IsSilent code reason m m' r h e =
      Step-status code reason (perform-Step ops (status code reason) m m' r e) refl h

  run-payload_silent :
      (cs : List Call) (c : Call) (m m' end : Message Buf) (r : Option HeaderError)
      → IsSilent m.1
      → run ops cs m ≡ ret m'
      → IsPayload c
      → perform ops c m' ≡ ret (r, end)
      → end.0 ≡ m'.0
  run-payload_silent cs c m m' end r h e p k =
      payload_silent c m' end r (run-IsSilent cs m m' h e) p k

  status-payload_silent :
      (code : ℕ) (reason : Bytes) (cs : List Call) (c : Call) (m m' end : Message Buf)
      (r : Option HeaderError)
      → is_bodyless_code code ≡ true
      → run ops (status code reason ∷ cs) m ≡ ret m'
      → IsPayload c
      → perform ops c m' ≡ ret (r, end)
      → end.0 ≡ m'.0
  unfolding run
  status-payload_silent code reason cs c m m' end r h e p k =
      let ((x, next), stepped, later) = >>=-eq-ret (perform ops (status code reason) m) _ e in
      run-payload_silent cs c next m' end r (status-IsSilent code reason m next x h stepped) later p
        k

  -- The message answers a HEAD request or is denied a body, or the calls begin with a bodyless
  -- status.
  abbrev pub HasNoBody : List Call → MessageState → Type 0
  HasNoBody (status code reason ∷ cs) s = IsSilent s ⊎ (is_bodyless_code code ≡ true)
  HasNoBody _ s = IsSilent s

  -- A message that answers a HEAD request, or whose status allows no body (1xx, 204 or 304, already
  -- written or written by the first of the calls), sends none: after any calls, a `write_body` or
  -- `done` that returns leaves the buffer as it was.
  pub run-silent_payload :
      (cs : List Call) (c : Call) (m m' end : Message Buf) (r : Option HeaderError)
      → HasNoBody cs m.1
      → run ops cs m ≡ ret m'
      → IsPayload c
      → perform ops c m' ≡ ret (r, end)
      → end.0 ≡ m'.0
  run-silent_payload (status code reason ∷ cs) c m m' end r (inr h) e p k =
      status-payload_silent code reason cs c m m' end r h e p k
  run-silent_payload (status code reason ∷ cs) c m m' end r (inl h) e p k =
      run-payload_silent _ c m m' end r h e p k
  run-silent_payload cs c m m' end r h e p k = run-payload_silent cs c m m' end r h e p k
