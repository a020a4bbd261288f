-- ===== src/Server/Response/ErrorPage.antt =====
-- The default error page is a complete response.
use rotor_http.Prelude.{
  ℕ, ◌-◌, ◌≡◌, refl, Bool, true, false, [], ◌∷◌, ◌++◌, append_assoc, arith, Bytes, codes, crlf,
  length, ltb, ◌==◌, if◌then◌else◌, Outcome, ret, panic,
}
use rotor_http.Buffer.{BufferOps, BufferLaws}
use rotor_http.Std.Ascii.{eq_ignore_ascii_case, to_ascii_lowercase}
use rotor_http.Std.Radix.{to_string}
use rotor_http.Version.{Version}
use rotor_http.Version
use rotor_http.Message.State.{
  Body, normal, head, MessageState, response_start, final_response_start,
}
use rotor_http.Message.{
  Message, is_bodyless_code, response_status, add_header, write_header, done_headers,
}
use rotor_http.Message
use rotor_http.Server.Error.{RequestError, headers_are_too_large, http_status}
use rotor_http.Server.Response.{emit_error_page, page}

-- A response that has no status line yet, to a request that is HEAD or not.
abbrev pub unanswered : Version → Bool → Bool → Bool → MessageState
unanswered v continued is_head close =
    let b : Body = if is_head then head else normal in
    if continued then final_response_start v b close else response_start v b close

-- The response: a status line, the length of the page, its type, `Connection: close` if the
-- connection closes, and the page itself unless the request was HEAD.
abbrev pub response_of : Version → Bool → Bool → ℕ → Bytes → Bytes
response_of v is_head close code reason =
    Version.fmt v
    ++ (32
        ∷ (to_string code
            ++ (32
                ∷ (reason
                    ++ (crlf
                        ++ (codes "Content-Length: "
                            ++ (to_string (length (page code reason))
                                ++ (crlf
                                    ++ (codes "Content-Type: text/html\r\n"
                                        ++ ((if close then codes "Connection: close\r\n" else [])
                                            ++ (crlf
                                                ++ (if is_head
                                                    then []
                                                    else page code reason))))))))))))

pub same_length : (n : ℕ) → ltb n n ≡ false
same_length n = ground arith

pub sub_self : (n : ℕ) → n - n ≡ 0
sub_self n = omega arith

http_status_not_continue : {E : Type 0} (e : RequestError E) → ((http_status e).0 == 100) ≡ false
unfolding http_status
http_status_not_continue headers_are_too_large = refl
http_status_not_continue _ = refl

http_status_body : {E : Type 0} (e : RequestError E) → is_bodyless_code (http_status e).0 ≡ false
unfolding http_status
http_status_body headers_are_too_large = refl
http_status_body _ = refl

module _ {Buf : Type 0} (ops : BufferOps Buf) (laws : BufferLaws ops) where
  open ops use {contents}
  open laws use {contents-write}

  -- The message is complete and has grown by the text.
  Wrote : Buf → Bytes → Outcome (Message Buf) → Type 0
  Wrote b text panic = ⊥
  Wrote b text (ret (b', s)) = (s ≡ MessageState.done) × (contents b' ≡ contents b ++ text)

  Wrote-ret :
      (b : Buf) (text : Bytes) (o : Outcome (Message Buf))
      → Wrote b text o
      → (b' : Buf) × (o ≡ ret (b', MessageState.done)) × (contents b' ≡ contents b ++ text)
  unfolding Wrote
  Wrote-ret b text panic h = absurd h
  Wrote-ret b text (ret (b', s)) h = (b', cc (h.0), h.1)

  page-Wrote :
      (v : Version) (continued is_head close : Bool) (b : Buf) (code : ℕ) (reason : Bytes)
      → (code == 100) ≡ false
      → is_bodyless_code code ≡ false
      → Wrote b
          (response_of v is_head close code reason)
          (emit_error_page ops (code, reason) (b, unanswered v continued is_head close))
  unfolding Wrote emit_error_page response_status Message.add_length add_header write_header
      done_headers Message.write_body Message.done eq_ignore_ascii_case to_ascii_lowercase
  page-Wrote v false false false b code reason h k =
      rw (h, k, same_length (length (page code reason)), sub_self (length (page code reason)))
        (refl, simp (contents-write, append_assoc))
  page-Wrote v false false true b code reason h k =
      rw (h, k, same_length (length (page code reason)), sub_self (length (page code reason)))
        (refl, simp (contents-write, append_assoc))
  page-Wrote v false true false b code reason h k =
      rw (h, k, same_length (length (page code reason))) (refl, simp (contents-write, append_assoc))
  page-Wrote v false true true b code reason h k =
      rw (h, k, same_length (length (page code reason))) (refl, simp (contents-write, append_assoc))
  page-Wrote v true false false b code reason h k =
      rw (h, k, same_length (length (page code reason)), sub_self (length (page code reason)))
        (refl, simp (contents-write, append_assoc))
  page-Wrote v true false true b code reason h k =
      rw (h, k, same_length (length (page code reason)), sub_self (length (page code reason)))
        (refl, simp (contents-write, append_assoc))
  page-Wrote v true true false b code reason h k =
      rw (h, k, same_length (length (page code reason))) (refl, simp (contents-write, append_assoc))
  page-Wrote v true true true b code reason h k =
      rw (h, k, same_length (length (page code reason))) (refl, simp (contents-write, append_assoc))

  -- The default error page completes the response: to any error, on a response that has no status
  -- line yet, with or without a 100 Continue in front, it does not panic, ends the message, and
  -- appends a status line, the right `Content-Length`, the type, `Connection: close` when the
  -- connection closes, and the page, which is left out in an answer to HEAD.
  pub emit_error_page_complete :
      {E : Type 0} (e : RequestError E) (v : Version) (continued is_head close : Bool) (b : Buf)
      → (b' : Buf) × (emit_error_page ops (http_status e) (b, unanswered v continued is_head close)
          ≡ ret (b', MessageState.done))
        × (contents b'
            ≡ contents b ++ response_of v is_head close (http_status e).0 (http_status e).1)
  emit_error_page_complete e v continued is_head close b = Wrote-ret b _ _ (
      page-Wrote v continued is_head close b (http_status e).0 (http_status e).1
        (http_status_not_continue e) (http_status_body e))
