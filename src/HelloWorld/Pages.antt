-- ===== src/HelloWorld/Pages.antt =====
-- examples/hello_world_server.rs: the text of every answer.
use rotor_http.Prelude.{
  ℕ, ◌≡◌, refl, Bool, true, false, [], ◌∷◌, ◌++◌, append_assoc, Bytes, codes, crlf, length, ◌==◌,
  if◌then◌else◌, Outcome, ret,
}
use rotor_http.Buffer.{BufferOps, BufferLaws}
use rotor_http.HelloWorld.{
  HelloWorld, hello, get_num, hello_name, page_not_found, send_page, send_answer, Counter,
}
use rotor_http.Message.{Message, is_bodyless_code}
use rotor_http.Message
use rotor_http.Message.State.{MessageState}
use rotor_http.Server.Response.{new}
use rotor_http.Server.Response.ErrorPage.{same_length, sub_self}
use rotor_http.Std.Radix.{to_string}
use rotor_http.Version.{http11}
use rotor_http.Version

-- A response of HTTP/1.1 that keeps the connection: its status line, the length of its page, and the
-- page unless the request was HEAD.
abbrev pub response_of : ℕ → Bytes → Bool → Bytes → Bytes
response_of code reason is_head page =
    Version.fmt http11
    ++ (32
        ∷ (to_string code
            ++ (32
                ∷ (reason
                    ++ (crlf
                        ++ (codes "Content-Length: "
                            ++ (to_string (length page)
                                ++ (crlf ++ (crlf ++ (if is_head then [] else page))))))))))

abbrev pub page_text : HelloWorld → ℕ → Bytes
page_text hello n = codes "Hello World!"
page_text get_num n = codes "This host has been visited " ++ (to_string n ++ codes " times")
page_text (hello_name name) n = codes "Hello " ++ (name ++ codes "!")
page_text page_not_found n = codes "404 - Page not found"

-- The response to a page, with the count of the visits.
abbrev pub answer_of : HelloWorld → Bool → ℕ → Bytes
answer_of page_not_found is_head n =
    response_of 404 (codes "Not Found") is_head (page_text page_not_found n)
answer_of page is_head n = response_of 200 (codes "OK") is_head (page_text page n)

module _ {Buf : Type 0} (ops : BufferOps Buf) (laws : BufferLaws ops) where
  open ops use {contents}
  open laws use {contents-write}

  -- The message is complete and has grown by the text.
  abbrev pub Adds : Buf → Bytes → Outcome (Message Buf) → Type 0
  Adds b text o =
      (b' : Buf) × (o ≡ ret (b', MessageState.done)) × (contents b' ≡ contents b ++ text)

  -- The buffer behind the headers.
  headed : ℕ → Bytes → ℕ → Buf → Buf
  headed code reason n b =
      ops.write
        (Message.write_header ops (codes "Content-Length") (to_string n)
          (ops.write b (Message.status_line ops http11 code reason)))
        crlf

  pub send_page-Adds :
      (code : ℕ) (reason : Bytes) (is_head : Bool) (page : Bytes) (b : Buf)
      → (code == 100) ≡ false
      → is_bodyless_code code ≡ false
      → Adds b
          (response_of code reason is_head page)
          (send_page ops code reason page (new b http11 is_head false))
  unfolding send_page new Message.response_status Message.add_length Message.write_header
      Message.done_headers Message.write_body Message.done headed
  send_page-Adds code reason false page b h k = (
    ops.write (headed code reason (length page) b) page,
    rw (h, k, same_length (length page), sub_self (length page)),
    simp (contents-write, append_assoc),
  )
  send_page-Adds code reason true page b h k = (
    headed code reason (length page) b,
    rw (h, k, same_length (length page)),
    simp (contents-write, append_assoc),
  )

  module _ {C Time : Type 0} (counter : Counter C) (deadline : Time → Time) where
    pub send_answer-Adds :
        (page : HelloWorld) (is_head : Bool) (b : Buf) (c : C)
        → Adds b
            (answer_of page is_head (counter.get c))
            (send_answer counter deadline ops page (new b http11 is_head false) c)
    unfolding send_answer
    send_answer-Adds hello is_head b c =
        send_page-Adds 200 (codes "OK") is_head (page_text hello (counter.get c)) b refl refl
    send_answer-Adds get_num is_head b c =
        send_page-Adds 200 (codes "OK") is_head (page_text get_num (counter.get c)) b refl refl
    send_answer-Adds (hello_name name) is_head b c =
        send_page-Adds 200 (codes "OK") is_head (page_text (hello_name name) (counter.get c)) b refl
          refl
    send_answer-Adds page_not_found is_head b c =
        send_page-Adds 404 (codes "Not Found") is_head (page_text page_not_found 0) b refl refl
