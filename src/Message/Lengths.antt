-- ===== src/Message/Lengths.antt =====
-- How many body length headers (`Content-Length`, `Transfer-Encoding`) a message gets.
mod Steps
use rotor_http.Prelude.{
  ℕ, ◌+◌, ◌≤◌, ◌≡◌, ◌≢◌, refl, ap, Bool, true, false, List, [], ◌∷◌, arith, Option, none, Outcome,
  ◌++◌, append_assoc, append-nil, sym, ◌∙◌, Bytes, length, ltb, Bool-cases, inl, inr, suc, ret,
  panic, >>=-eq-ret, ret_injective, if◌then◌else◌,
}
use rotor_http.Buffer.{BufferOps, BufferLaws}
use rotor_http.Message.State.{
  Body, normal, head, denied, request, HeaderError, MessageState, response_start,
  final_response_start, request_start, headers, fixed_body, chunked_body,
}
use rotor_http.Message.{Message, is_length_header}
use rotor_http.Message.Automaton.{Step, BeforeStatus}
use rotor_http.Message.Automaton.Sound.{perform-Step}
use rotor_http.Message.Parts.{
  Part, start, field, blank, payload, text_of, render, parts, close_parts, body_parts,
  length_fields,
}
use rotor_http.Message.Output.{written, reached, reached-run, reached-written}
use rotor_http.Std.Ascii.{eq_ignore_ascii_case, to_ascii_lowercase}
use rotor_http.Message.Calls.{Call, header, length_header, chunked_header, perform, run}
use rotor_http.Message.Lengths.Steps.{
  added, room, owed, Answers, Step-room, Step-owed, room_le_one, length_fields-append,
  Step-length_fields,
}

module _ {Buf : Type 0} (ops : BufferOps Buf) where
  -- Over a whole run, up to its end or its panic.
  body_headers : List Call → Message Buf → ℕ
  body_headers [] m = 0
  body_headers (c ∷ cs) m = elim (perform ops c m) [
    | panic ↦ 0
    | ret (r, m') ↦ added c r + body_headers cs m'
  ]

abbrev pub is_denied : Body → Bool
is_denied denied = true
is_denied _ = false

module _ {Buf : Type 0} (ops : BufferOps Buf) where
  body_headers-room : (cs : List Call) (m : Message Buf) → body_headers ops cs m ≤ room m.1
  unfolding body_headers
  body_headers-room [] m = omega arith
  body_headers-room (c ∷ cs) m = go (body_headers-room cs) (perform ops c m) refl
    where
      go :
          ((m' : Message Buf) → body_headers ops cs m' ≤ room m'.1)
          → (o : Outcome (Option HeaderError × Message Buf)) → perform ops c m ≡ o
          → elim o [ panic ↦ 0 | ret (r, m') ↦ added c r + body_headers ops cs m' ] ≤ room m.1
      go ih panic e = omega arith
      go ih (ret (r, m')) e = omega (arith, ih m', Step-room (perform-Step ops c m m' r e))

  body_headers-owed :
      (cs : List Call) (m m' : Message Buf)
      → Answers m.1
      → run ops cs m ≡ ret m'
      → body_headers ops cs m + owed m'.1 ≡ owed m.1
  unfolding body_headers run
  body_headers-owed [] m m' a e =
      omega (arith, ap (λ (x : Message Buf). owed x.1) (ret_injective e))
  body_headers-owed (c ∷ cs) m m' a e =
      let ((r, next), stepped, later) = >>=-eq-ret (perform ops c m) _ e in
      let (paid, a') = Step-owed (perform-Step ops c m next r stepped) a in
      rw (stepped, body_headers) (omega (arith, body_headers-owed cs next m' a' later, paid))

  body_headers_complete :
      (cs : List Call) (b b' : Buf) (bd : Body) (c : Bool)
      → bd ≢ request
      → run ops cs (b, headers bd c) ≡ ret (b', MessageState.done)
      → body_headers ops cs (b, headers bd c) ≡ (if is_denied bd then 0 else 1)
  body_headers_complete cs b b' normal c ne e = omega (arith, body_headers-owed cs _ _ tt e)
  body_headers_complete cs b b' head c ne e = omega (arith, body_headers-owed cs _ _ tt e)
  body_headers_complete cs b b' denied c ne e = omega (arith, body_headers-owed cs _ _ tt e)
  body_headers_complete cs b b' request c ne e = absurd (ne refl)

  written-length_fields :
      (cs : List Call) (m : Message Buf) → length_fields (written ops cs m) ≡ body_headers ops cs m
  unfolding written body_headers
  written-length_fields [] m = refl
  written-length_fields (c ∷ cs) m = by_call (written-length_fields cs) (perform ops c m) refl
    where
      by_call :
          ((m' : Message Buf) → length_fields (written ops cs m') ≡ body_headers ops cs m')
          → (o : Outcome (Option HeaderError × Message Buf)) → perform ops c m ≡ o
          → length_fields (elim o [ panic ↦ [] | ret (r, m') ↦ parts c r m.1 ++ written ops cs m' ])
            ≡ elim o [ panic ↦ 0 | ret (r, m') ↦ added c r + body_headers ops cs m' ]
      by_call ih panic e = refl
      by_call ih (ret (r, m')) e = omega (
        arith,
        length_fields-append (parts c r m.1) (written ops cs m'),
        Step-length_fields (perform-Step ops c m m' r e),
        ih m',
      )

  module _ (laws : BufferLaws ops) where
    open ops use {contents}

    -- A message never gets a second body length header in its output: whatever methods are called
    -- in whatever order, errors ignored, the output behind the last call that returns has grown by
    -- just what those calls are to write (a line for a status, a header with its name and value,
    -- the empty line, the payload, and nothing for a header that is refused), and among the headers
    -- of these there is at most one Content-Length or Transfer-Encoding.
    pub written_headers-le_one :
        (cs : List Call) (m : Message Buf)
        → (contents (reached ops cs m).0 ≡ contents m.0 ++ render (written ops cs m))
          × (length_fields (written ops cs m) ≤ 1)
    written_headers-le_one cs m = (
      reached-written ops laws cs m,
      omega (arith, written-length_fields cs m, body_headers-room cs m, room_le_one m.1),
    )

    -- A response that is brought to its end behind its status line has grown by just what its calls
    -- are to write, with exactly one Content-Length or Transfer-Encoding among the headers if its
    -- status allows a body (also in an answer to HEAD), and none if not.
    pub written_headers_complete :
        (cs : List Call) (b b' : Buf) (bd : Body) (c : Bool)
        → bd ≢ request
        → run ops cs (b, headers bd c) ≡ ret (b', MessageState.done)
        → (contents b' ≡ contents b ++ render (written ops cs (b, headers bd c)))
          × (length_fields (written ops cs (b, headers bd c)) ≡ (if is_denied bd then 0 else 1))
    written_headers_complete cs b b' bd c ne e =
        let grown = reached-written ops laws cs (b, headers bd c) in
        (
          rw (reached-run ops cs (b, headers bd c) (b', MessageState.done) e) at grown,
          written-length_fields cs (b, headers bd c) ∙ body_headers_complete cs b b' bd c ne e,
        )
