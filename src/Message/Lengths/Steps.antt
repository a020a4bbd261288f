-- ===== src/Message/Lengths/Steps.antt =====
-- message.rs: the body length headers that one step of the protocol adds to the output.
use rotor_http.Prelude.{
  ℕ, ◌+◌, ◌≤◌, ◌≡◌, ◌≢◌, refl, Bool, true, false, List, [], ◌∷◌, arith, Option, none, ◌++◌, Bytes,
  length, ltb, Bool-cases, inl, inr, if◌then◌else◌,
}
use rotor_http.Message.State.{
  Body, normal, head, denied, request, HeaderError, MessageState, response_start,
  final_response_start, request_start, headers, fixed_body, chunked_body,
}
use rotor_http.Message.{is_length_header}
use rotor_http.Message.Automaton.{Step, BeforeStatus}
use rotor_http.Message.Parts.{
  Part, start, field, blank, payload, parts, close_parts, body_parts, length_fields,
}
use rotor_http.Std.Ascii.{eq_ignore_ascii_case, to_ascii_lowercase}
use rotor_http.Message.Calls.{Call, header, length_header, chunked_header}

-- The body length headers that a call has added, by the call and the error that it returned.
abbrev pub added : Call → Option HeaderError → ℕ
added (length_header n) none = 1
added chunked_header none = 1
added (header name value) none = if is_length_header name then 1 else 0
added _ _ = 0

-- The headers that a state may still get.
abbrev pub room : MessageState → ℕ
room (response_start v b c) = 1
room (final_response_start v b c) = 1
room request_start = 1
room (headers b c) = 1
room _ = 0

-- The headers that a state with a decided body still has to get before the end.
abbrev pub owed : MessageState → ℕ
owed (headers normal c) = 1
owed (headers head c) = 1
owed _ = 0

-- The states behind the status line of a response.
abbrev pub Answers : MessageState → Type 0
Answers (response_start v b c) = ⊥
Answers (final_response_start v b c) = ⊥
Answers request_start = ⊥
Answers (headers request c) = ⊥
Answers _ = Unit

room_of_status : {b : Body} {c : Bool} {s : MessageState} → BeforeStatus b c s → room s ≡ 1
room_of_status BeforeStatus.nothing_sent = refl
room_of_status BeforeStatus.continue_sent = refl

pub Step-room :
    {s s' : MessageState} {c : Call} {r : Option HeaderError}
    → Step s c r s'
    → added c r + room s' ≤ room s
Step-room (Step.put_status code reason h ne) = omega (arith, room_of_status h)
Step-room (Step.put_header name value e h) = rw e (omega arith)
Step-room (Step.put_line m p v) = omega arith
Step-room _ = omega arith

not_before : {b : Body} {c : Bool} {s : MessageState} → BeforeStatus b c s → Answers s → ⊥
not_before BeforeStatus.nothing_sent a = a
not_before BeforeStatus.continue_sent a = a

owed_of_body : (b : Body) (c : Bool) → b ≢ denied → Answers (headers b c) → owed (headers b c) ≡ 1
owed_of_body normal c ne a = refl
owed_of_body head c ne a = refl
owed_of_body denied c ne a = absurd (ne refl)
owed_of_body request c ne a = absurd a

pub Step-owed :
    {s s' : MessageState} {c : Call} {r : Option HeaderError}
    → Step s c r s'
    → Answers s
    → (added c r + owed s' ≡ owed s) × Answers s'
Step-owed (Step.put_status code reason h ne) a = absurd (not_before h a)
Step-owed (Step.put_line m p v) a = absurd a
Step-owed Step.put_continue a = absurd a
Step-owed (Step.refuse_header name value e) a = (omega arith, a)
Step-owed (Step.put_header name value e h) a = (rw e (omega arith), a)
Step-owed (Step.put_length {b} {c} n ne) a = (omega (arith, owed_of_body b c ne a), tt)
Step-owed (Step.put_chunked {b} {c} ne) a = (omega (arith, owed_of_body b c ne a), tt)
Step-owed Step.end_request a = absurd a
Step-owed _ a = (omega arith, tt)

pub room_le_one : (s : MessageState) → room s ≤ 1
room_le_one (headers b c) = omega arith
room_le_one _ = omega arith

pub length_fields-append :
    (ps qs : List Part) → length_fields (ps ++ qs) ≡ length_fields ps + length_fields qs
length_fields-append [] qs = omega arith
length_fields-append (field name value ∷ ps) qs = elim (Bool-cases (is_length_header name)) [
  | inl y ↦ rw y (omega (arith, length_fields-append ps qs))
  | inr n ↦ rw n (length_fields-append ps qs)
]
length_fields-append (start x ∷ ps) qs = length_fields-append ps qs
length_fields-append (blank ∷ ps) qs = length_fields-append ps qs
length_fields-append (payload d ∷ ps) qs = length_fields-append ps qs

length_fields-close_parts :
    (c : Bool) (ps : List Part) → length_fields (close_parts c ++ ps) ≡ length_fields ps
unfolding eq_ignore_ascii_case to_ascii_lowercase
length_fields-close_parts true ps = refl
length_fields-close_parts false ps = refl

length_fields-body_parts : (d : Bytes) (s : MessageState) → length_fields (body_parts d s) ≡ 0
length_fields-body_parts d (chunked_body false) = elim (Bool-cases (ltb 0 (length d))) [
  | inl more ↦ rw more refl
  | inr empty ↦ rw empty refl
]
length_fields-body_parts d (fixed_body false n) = refl
length_fields-body_parts d _ = refl

-- What a step of the protocol writes has the headers that it counts.
pub Step-length_fields :
    {s s' : MessageState} {c : Call} {r : Option HeaderError}
    → Step s c r s'
    → length_fields (parts c r s) ≡ added c r
unfolding eq_ignore_ascii_case to_ascii_lowercase
Step-length_fields (Step.put_header name value e h) = rw e refl
Step-length_fields (Step.put_status code reason BeforeStatus.nothing_sent ne) = refl
Step-length_fields (Step.put_status code reason BeforeStatus.continue_sent ne) = refl
Step-length_fields (Step.end_denied {c}) = length_fields-close_parts c (blank ∷ [])
Step-length_fields (Step.end_request {c}) = length_fields-close_parts c (blank ∷ [])
Step-length_fields (Step.end_unknown {c}) = length_fields-close_parts c []
Step-length_fields (Step.end_fixed {c = c}) = length_fields-close_parts c (blank ∷ [])
Step-length_fields (Step.end_chunked {c = c}) = length_fields-close_parts c (blank ∷ [])
Step-length_fields (Step.put_fixed {h} {n} d fits) = length_fields-body_parts d (fixed_body h n)
Step-length_fields (Step.put_chunk {h} d) = length_fields-body_parts d (chunked_body h)
Step-length_fields (Step.finish_chunked {h = true}) = refl
Step-length_fields (Step.finish_chunked {h = false}) = refl
Step-length_fields _ = refl
