-- ===== src/TodoBackend/Answers.antt =====
-- examples/todobackend.rs: every answer is a complete response.
use rotor_http.Prelude.{
  ℕ, ◌≡◌, refl, Bool, true, false, List, [], ◌∷◌, All, Bytes, codes, length, ◌==◌, if◌then◌else◌,
  Outcome, ret, ◌>>=◌, ok,
}
use rotor_http.Buffer.{BufferOps}
use rotor_http.Message.{
  Message, is_bodyless_code, is_length_header, response_status, add_header, put_header, add_length,
  close_header, end_headers, done_headers, write_body,
}
use rotor_http.Message
use rotor_http.Message.State.{Body, MessageState, headers, normal, head, fixed_headers, fixed_body}
use rotor_http.Server.Response.ErrorPage.{unanswered, same_length, sub_self}
use rotor_http.Std.Radix.{to_string}
use rotor_http.Std.Ascii.{eq_ignore_ascii_case, to_ascii_lowercase}
use rotor_http.TodoBackend.Handler.{add_headers, preflight_headers, send, send_preflight}
use rotor_http.Version.{Version}

-- A header that says nothing of the length.
abbrev pub Plain : Bytes × Bytes → Type 0
Plain (name, value) = is_length_header name ≡ false

module _ {Buf : Type 0} (ops : BufferOps Buf) where
  -- The message is ended.
  abbrev pub Ended : Outcome (Message Buf) → Type 0
  Ended o = (b : Buf) × (o ≡ ret (b, MessageState.done))

  add_headers-fixed :
      (hs : List (Bytes × Bytes)) (is_head c : Bool) (n : ℕ) (b : Buf)
      → All Plain hs
      → (b' : Buf) × (add_headers ops hs (b, fixed_headers is_head c n)
          ≡ ret (b', fixed_headers is_head c n))
  unfolding add_headers add_header
  add_headers-fixed [] is_head c n b h = (b, refl)
  add_headers-fixed ((name, value) ∷ hs) is_head c n b h =
      let (b', e) = add_headers-fixed hs is_head c n (Message.write_header ops name value b) h.1 in
      (b', rw h.0 e)

  done_headers-fixed :
      (is_head c : Bool) (n : ℕ) (b : Buf)
      → (b' : Buf) × (expects : Bool) × (done_headers ops (b, fixed_headers is_head c n)
          ≡ ret (ok expects, (b', fixed_body is_head n)))
  unfolding done_headers add_header eq_ignore_ascii_case to_ascii_lowercase
  done_headers-fixed is_head true n b = (_, _, refl)
  done_headers-fixed is_head false n b = (_, _, refl)

  body_of : Bool → Body
  body_of is_head = if is_head then head else normal

  status-headers :
      (v : Version) (continued is_head close : Bool) (b : Buf) (code : ℕ) (reason : Bytes)
      → (code == 100) ≡ false
      → is_bodyless_code code ≡ false
      → response_status ops code reason (b, unanswered v continued is_head close)
        ≡ ret (ops.write b (Message.status_line ops v code reason), headers (body_of is_head) close)
  unfolding response_status body_of
  status-headers v false is_head close b code reason h k = rw (h, k)
  status-headers v true is_head close b code reason h k = rw (h, k)

  length-fixed :
      (is_head c : Bool) (n : ℕ) (b : Buf)
      → add_length ops n (b, headers (body_of is_head) c)
        ≡ ret (
          ok tt,
          (
            Message.write_header ops (codes "Content-Length") (to_string n) b,
            fixed_headers is_head c n,
          ),
        )
  unfolding add_length body_of
  length-fixed true c n b = refl
  length-fixed false c n b = refl

  end_body :
      (is_head : Bool) (body : Bytes) (b : Buf)
      → Ended (do m ← write_body ops body (b, fixed_body is_head (length body)); Message.done ops m)
  unfolding write_body Message.done
  end_body false body b = (ops.write b body, rw (same_length (length body), sub_self (length body)))
  end_body true body b = (b, rw (same_length (length body)))

  -- What is sent with a length, headers that say nothing of it, and a body, is a complete response.
  pub send-Ended :
      (code : ℕ) (reason : Bytes) (hs : List (Bytes × Bytes)) (body : Bytes) (v : Version)
      (continued is_head close : Bool) (b : Buf)
      → (code == 100) ≡ false
      → is_bodyless_code code ≡ false
      → All Plain hs
      → Ended (send ops code reason hs body (b, unanswered v continued is_head close))
  unfolding send
  send-Ended code reason hs body v continued is_head close b h k plain =
      let b₁ = ops.write b (Message.status_line ops v code reason) in
      let b₂ = Message.write_header ops (codes "Content-Length") (to_string (length body)) b₁ in
      let (b₃, named) = add_headers-fixed hs is_head close (length body) b₂ plain in
      let (b₄, expects, headed) = done_headers-fixed is_head close (length body) b₃ in
      let (b₅, ended) = end_body is_head body b₄ in
      (
        b₅,
        rw
            (
              status-headers v continued is_head close b code reason h k,
              length-fixed is_head close (length body) b₁,
              named,
              headed,
            )
            ended,
      )

  pub send_preflight-Ended :
      (v : Version) (continued is_head close : Bool) (b : Buf)
      → Ended (send_preflight ops (b, unanswered v continued is_head close))
  unfolding send_preflight Message.done eq_ignore_ascii_case to_ascii_lowercase
  send_preflight-Ended v continued is_head close b =
      let b₁ = ops.write b (Message.status_line ops v 200 (codes "OK")) in
      let b₂ = Message.write_header ops (codes "Content-Length") (to_string 0) b₁ in
      let (b₃, named) =
        add_headers-fixed preflight_headers is_head close 0 b₂ (refl, (refl, (refl, (refl, tt)))) in
      let (b₄, expects, headed) = done_headers-fixed is_head close 0 b₃ in
      (
        b₄,
        rw
            (
              status-headers v continued is_head close b 200 (codes "OK") refl refl,
              length-fixed is_head close 0 b₁,
              named,
              headed,
            )
            (empty is_head b₄),
      )
    where
      empty :
          (is_head : Bool) (b : Buf)
          → Message.done ops (b, fixed_body is_head 0) ≡ ret (b, MessageState.done)
      empty true b = refl
      empty false b = refl
