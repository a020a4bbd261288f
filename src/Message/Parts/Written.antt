-- ===== src/Message/Parts/Written.antt =====
-- A method that returns has written its parts, and nothing else.
use rotor_http.Prelude.{
  ℕ, zero, suc, ◌≡◌, sym, ◌∙◌, Bool, true, false, [], ◌∷◌, ◌++◌, append_assoc, append-nil, Bytes,
  codes, crlf, ltb, length, Bool-cases, inl, inr, ◌==◌, Option, none, Outcome, ret, panic, ◌>>=◌,
}
use rotor_http.Buffer.{BufferOps, BufferLaws}
use rotor_http.Message.Calls.{
  Call, status, line, continue_line, header, length_header, chunked_header, end_of_headers, body,
  finish, perform, refusal,
}
use rotor_http.Message.Payload.Dechunk.{last_chunk}
use rotor_http.Message.Payload.{write_chunk-contents}
use rotor_http.Message.State.{
  Body, normal, head, denied, request, HeaderError, MessageState, response_start,
  final_response_start, request_start, headers, fixed_headers, chunked_headers, bodyless,
  fixed_body, chunked_body,
}
use rotor_http.Message.{
  Message, is_length_header, closes, final_status, response_status, request_line, response_continue,
  write_header, put_header, add_header, add_length, add_chunked, close_header, end_headers,
  done_headers, write_body,
}
use rotor_http.Message
use rotor_http.Std.Ascii.{eq_ignore_ascii_case, to_ascii_lowercase}
use rotor_http.Version.{Version}
use rotor_http.Message.Parts.{field, blank, render, parts}

module _ {Buf : Type 0} (ops : BufferOps Buf) (laws : BufferLaws ops) where
  open ops use {contents, write}
  open laws use {contents-write}

  -- A call that returns writes its parts.
  Writes : Buf → MessageState → Call → Outcome (Option HeaderError × Message Buf) → Type 0
  Writes b s c panic = Unit
  Writes b s c (ret (r, m)) = contents m.0 ≡ contents b ++ render (parts c r s)

  write_header-field :
      (name value : Bytes) (b : Buf)
      → contents (write_header ops name value b) ≡ contents b ++ render (field name value ∷ [])
  unfolding write_header
  write_header-field name value b = simp (contents-write, append_assoc, append-nil)

  nothing : (b : Buf) → contents b ≡ contents b ++ []
  nothing b = sym (append-nil (contents b))

  one_write : (b : Buf) (d : Bytes) → contents (write b d) ≡ contents b ++ (d ++ [])
  one_write b d = simp (contents-write, append-nil)

  put_header-Writes :
      (name value : Bytes) (b : Buf) (s : MessageState)
      → Writes b s
          (header name value)
          (do (r, m) ← put_header ops name value (b, s); ret (refusal r, m))
  unfolding Writes put_header
  put_header-Writes name value b (headers bd c) = write_header-field name value b
  put_header-Writes name value b (fixed_headers h c n) = write_header-field name value b
  put_header-Writes name value b (chunked_headers h c) = write_header-field name value b
  put_header-Writes name value b _ = tt

  add_header-Writes :
      (name value : Bytes) (b : Buf) (s : MessageState)
      → Writes b s
          (header name value)
          (do (r, m) ← add_header ops name value (b, s); ret (refusal r, m))
  unfolding Writes add_header
  add_header-Writes name value b s = elim (Bool-cases (is_length_header name)) [
    | inl e ↦ rw e (nothing b)
    | inr e ↦ rw e (put_header-Writes name value b s)
  ]

  add_length-Writes :
      (n : ℕ) (b : Buf) (s : MessageState)
      → Writes b s (length_header n) (do (r, m) ← add_length ops n (b, s); ret (refusal r, m))
  unfolding Writes add_length
  add_length-Writes n b (fixed_headers h c k) = nothing b
  add_length-Writes n b (chunked_headers h c) = nothing b
  add_length-Writes n b (headers denied c) = nothing b
  add_length-Writes n b (headers normal c) = write_header-field _ _ b
  add_length-Writes n b (headers head c) = write_header-field _ _ b
  add_length-Writes n b (headers request c) = write_header-field _ _ b
  add_length-Writes n b _ = tt

  add_chunked-Writes :
      (b : Buf) (s : MessageState)
      → Writes b s chunked_header (do (r, m) ← add_chunked ops (b, s); ret (refusal r, m))
  unfolding Writes add_chunked
  add_chunked-Writes b (fixed_headers h c k) = nothing b
  add_chunked-Writes b (chunked_headers h c) = nothing b
  add_chunked-Writes b (headers denied c) = nothing b
  add_chunked-Writes b (headers normal c) = write_header-field _ _ b
  add_chunked-Writes b (headers head c) = write_header-field _ _ b
  add_chunked-Writes b (headers request c) = write_header-field _ _ b
  add_chunked-Writes b _ = tt

  -- The empty line, and the header that a closing message puts in front of it.
  ends_open : (b : Buf) → contents (write b crlf) ≡ contents b ++ render (blank ∷ [])
  ends_open b = one_write b crlf

  ends_closing :
      (b : Buf)
      → contents (write (write_header ops (codes "Connection") (codes "close") b) crlf)
        ≡ contents b ++ render (field (codes "Connection") (codes "close") ∷ blank ∷ [])
  ends_closing b =
      simp (contents-write, write_header-field (codes "Connection") (codes "close") b, append_assoc)

  done_headers-Writes :
      (b : Buf) (s : MessageState)
      → Writes b s end_of_headers (do (r, m) ← done_headers ops (b, s); ret (refusal r, m))
  unfolding Writes done_headers add_header eq_ignore_ascii_case to_ascii_lowercase
  done_headers-Writes b (headers denied false) = ends_open b
  done_headers-Writes b (headers denied true) = ends_closing b
  done_headers-Writes b (headers request false) = ends_open b
  done_headers-Writes b (headers request true) = ends_closing b
  done_headers-Writes b (headers normal false) = nothing b
  done_headers-Writes b (headers normal true) =
      write_header-field (codes "Connection") (codes "close") b
  done_headers-Writes b (headers head false) = tt
  done_headers-Writes b (headers head true) = tt
  done_headers-Writes b (fixed_headers h false n) = ends_open b
  done_headers-Writes b (fixed_headers h true n) = ends_closing b
  done_headers-Writes b (chunked_headers h false) = ends_open b
  done_headers-Writes b (chunked_headers h true) = ends_closing b
  done_headers-Writes b _ = tt

  write_body-Writes :
      (d : Bytes) (b : Buf) (s : MessageState)
      → Writes b s (body d) (do m ← write_body ops d (b, s); ret (none, m))
  unfolding Writes write_body
  write_body-Writes d b (fixed_body true n) = elim (Bool-cases (ltb n (length d))) [
    | inl over ↦ rw over tt
    | inr fits ↦ rw fits (nothing b)
  ]
  write_body-Writes d b (fixed_body false n) = elim (Bool-cases (ltb n (length d))) [
    | inl over ↦ rw over tt
    | inr fits ↦ rw fits (one_write b d)
  ]
  write_body-Writes d b (chunked_body true) = nothing b
  write_body-Writes d b (chunked_body false) = elim (Bool-cases (ltb 0 (length d))) [
    | inl more ↦ rw more (write_chunk-contents ops laws d b ∙ simp append-nil)
    | inr empty ↦ rw empty (nothing b)
  ]
  write_body-Writes d b _ = tt

  finish-Writes :
      (b : Buf) (s : MessageState)
      → Writes b s finish (do m ← Message.done ops (b, s); ret (none, m))
  unfolding Writes Message.done
  finish-Writes b bodyless = nothing b
  finish-Writes b (fixed_body false zero) = nothing b
  finish-Writes b (fixed_body false (suc n)) = tt
  finish-Writes b (fixed_body true n) = nothing b
  finish-Writes b (chunked_body false) = one_write b last_chunk
  finish-Writes b (chunked_body true) = nothing b
  finish-Writes b MessageState.done = nothing b
  finish-Writes b _ = tt

  final_status-Writes :
      (code : ℕ) (reason : Bytes) (b : Buf) (v : Version) (bd : Body) (c : Bool)
      → Writes b
          (response_start v bd c)
          (status code reason)
          (do m ← final_status ops v bd c code reason b; ret (none, m))
  unfolding Writes final_status
  final_status-Writes code reason b v bd c = elim (Bool-cases (code == 100)) [
    | inl e ↦ rw e tt
    | inr ne ↦ rw ne (one_write b _)
  ]

  perform-Writes : (c : Call) (b : Buf) (s : MessageState) → Writes b s c (perform ops c (b, s))
  unfolding Writes perform response_status request_line response_continue
  perform-Writes (status code reason) b (response_start v bd c) =
      final_status-Writes code reason b v bd c
  perform-Writes (status code reason) b (final_response_start v bd c) =
      final_status-Writes code reason b v bd c
  perform-Writes (status code reason) b _ = tt
  perform-Writes (line method path v) b request_start = one_write b _
  perform-Writes (line method path v) b _ = tt
  perform-Writes continue_line b (response_start v bd c) = one_write b _
  perform-Writes continue_line b _ = tt
  perform-Writes (header name value) b s = add_header-Writes name value b s
  perform-Writes (length_header n) b s = add_length-Writes n b s
  perform-Writes chunked_header b s = add_chunked-Writes b s
  perform-Writes end_of_headers b s = done_headers-Writes b s
  perform-Writes (body d) b s = write_body-Writes d b s
  perform-Writes finish b s = finish-Writes b s

  pub perform-parts :
      (c : Call) (m m' : Message Buf) (r : Option HeaderError)
      → perform ops c m ≡ ret (r, m')
      → contents m'.0 ≡ contents m.0 ++ render (parts c r m.1)
  unfolding Writes
  perform-parts c (b, s) m' r h = rw h at (perform-Writes c b s)
