-- ===== src/Exchange/Visit.antt =====
-- examples/client.rs against examples/hello_world_server.rs: a page that the one asks the other for.
pub mod Asked
pub mod Answered
use rotor_http.Prelude.{
  ℕ, ◌+◌, ◌^◌, ◌<◌, ◌≡◌, refl, ◌∙◌, false, [], ◌∷◌, ◌++◌, append-nil, arith, Bytes, length, Option,
  some, ret, ◌>>=◌, ap, sym,
}
use rotor_http.Buffer.{BufferLaws}
use rotor_http.Client.Parser.Events.{create}
use rotor_http.Client.Parser
use rotor_http.Client.Protocol as Asking
use rotor_http.Client.Session.{run}
use rotor_http.Fetch.{UrlOps, Scope, fetching}
use rotor_http.Fetch.Page.{awaiting, stopped, page_lines, fetch-responds}
use rotor_http.Fetch.Sending.{request_text}
use rotor_http.HelloWorld.{page_of}
use rotor_http.HelloWorld.Pages.{answer_of, page_text}
use rotor_http.HelloWorld.Visits.{server, counted, serve-answers}
use rotor_http.Server.Parser.{Intent, idle}
use rotor_http.Server.Protocol.{Env, Parsed}
use rotor_http.Server.Session.{serve, events}
use rotor_http.Stream.{Delivery, bytes}
use Asked.{raw_request, incoming-Readable}
use Asked
use Answered.{head_text, ReadsHead, answer_of-incoming}
use Answered

module _ (e : Env) (e' : Asking.Env) (laws : BufferLaws e.ops) (laws' : BufferLaws e'.ops)
    (d d' : Delivery) (seconds : ℕ → e.Duration) (seconds' : ℕ → e'.Duration) {Url : Type 0}
    (url_ops : UrlOps Url) where
  -- The example client visits the greeting server: the client asks for the path of its URL; the
  -- server, when it has that text in its input, answers with the page for the path and counts the
  -- visit; and the client, when it has that answer in its input, prints it, page and all, asks its
  -- loop to stop and closes the connection. Nothing is left over on either side. This holds where
  -- httparse reads the head of the one request and of the one response as they are written, the
  -- client's transport finds the end of the latter, both outputs are empty at first, and the count
  -- and the length of the page fit in a u64.
  pub visit-greets :
      (url : Url) (path host : Bytes) (n : ℕ) (peer : Option e.Addr) (now deadline : e.Time)
      (in_s out_s : e.Buf) (in_c out_c in_c₁ out_c₁ : e'.Buf) (deadline' : e'.Time)
      (scope later : Scope e'.Time)
      → url_ops.serialize_path url ≡ some path
      → url_ops.serialize_host url ≡ some host
      → ((rest : Bytes)
          → e.parse_request (request_text path host ++ rest)
            ≡ Parsed.complete (length (request_text path host)) (raw_request path host))
      → ReadsHead e'.parse_response d' (page_of path) (length (page_text (page_of path) (n + 1)))
      → length (page_text (page_of path) (n + 1)) < 2 ^ 64
      → n + 1 < 2 ^ 64
      → e'.ops.contents out_c ≡ []
      → e.ops.contents in_s ≡ request_text path host
      → e.ops.contents out_s ≡ []
      → e'.ops.contents in_c₁ ≡ answer_of (page_of path) false (n + 1)
      → (asked : e'.Buf) × (in_s' : e.Buf) × (answer : e.Buf) × (deadline₂ : e.Time)
        × (in_c' : e'.Buf) × ((do
          (i, scope') ← create (fetching e' seconds' url_ops) url scope
          run
              (fetching e' seconds' url_ops)
              d'
              1
              (i, record { input = in_c; output = out_c }, scope'))
            ≡ ret (
                awaiting e' laws' seconds' url_ops d' url
                  (e'.add_time scope.now (seconds' 120))
                  in_c
                  asked
                  scope))
        × (e'.ops.contents asked ≡ request_text path host)
        × (serve (server e seconds) d 2 (
          Intent.of idle tt (bytes 1) deadline,
          record { input = in_s; output = out_s; peer = peer },
          counted now n,
        )
            ≡ ret (
              Intent.of idle tt (bytes 1) deadline₂,
              record { input = in_s'; output = answer; peer = peer },
              counted now (n + 1),
            ))
        × (e.ops.contents in_s' ≡ [])
        × (e.ops.contents answer ≡ answer_of (page_of path) false (n + 1))
        × (run
              (fetching e' seconds' url_ops)
              d'
              3
              (awaiting e' laws' seconds' url_ops d' url deadline' in_c₁ out_c₁ later)
            ≡ ret (
              Parser.Intent.done,
              record { input = in_c'; output = out_c₁ },
              stopped e' laws' seconds' url_ops d'
                  (page_lines (Answered.incoming (page_of path) (n + 1)))
                  later,
            ))
        × (e'.ops.contents in_c' ≡ [])
  visit-greets url path host n peer now deadline in_s out_s in_c out_c in_c₁ out_c₁ deadline' scope
        later p h reads q size word none_yet there empty back =
      let page = page_of path in
      let (asked, in_c', asks, text, ends, left) =
        fetch-responds e' laws' seconds' url_ops d' url path host in_c out_c scope
          (Answered.incoming page (n + 1)) deadline' in_c₁ out_c₁ later [] p h
          (Answered.incoming-Readable (fetching e' seconds' url_ops) d' page (n + 1) size q)
          (back
            ∙ (sym (append-nil (answer_of page false (n + 1)))
                ∙ answer_of-incoming page (n + 1) [])) in
      let (in_s', answer, deadline₂, serves, gone, sent) =
        serve-answers e laws seconds peer d (Asked.incoming path host ∷ []) in_s out_s now deadline
          n (incoming-Readable (server e seconds) path host reads, tt) (omega arith)
          (there ∙ sym (append-nil (request_text path host))) in
      (
        asked,
        in_s',
        answer,
        deadline₂,
        in_c',
        asks,
        text ∙ rw none_yet refl,
        serves,
        gone,
        sent ∙ rw empty (append-nil (answer_of page false (n + 1))),
        ends,
        left,
      )
