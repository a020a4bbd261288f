-- ===== src/Server/Session/Rounds.antt =====
-- server/parser.rs: a request with no body, in the two events of its connection.
use rotor_http.Prelude.{
  ℕ, suc, ◌≤◌, ◌≡◌, refl, sym, ◌∙◌, false, List, [], ◌∷◌, ◌++◌, append_assoc, append-nil, arith,
  Bytes, length, length-append, drop_prefix, Option, some, ret, slice_middle,
}
use rotor_http.Buffer.{BufferLaws}
use rotor_http.Message.{is_complete}
use rotor_http.Server.Parser.Events.{State, bytes_read}
use rotor_http.Server.Parser.Head.{
  Reply, going, read_head, parsed_head, scanned_head, answered, accept,
}
use rotor_http.Server.Parser.Reading.{
  round, read_buffer_fixed, receive, and_then, after_round, read_body,
}
use rotor_http.Server.Parser.{
  ReadBody, idle, reading_body, buffer_fixed, Intent, start_body, body_expectation, intent_idle,
  intent_body, complete,
}
use rotor_http.Server.Protocol.{Env, Transport}
use rotor_http.Server.Response.{new}
use rotor_http.Server.Session.{
  Incoming, Readable, Answers, Serves, no_more, then_more, started, serve, texts, events,
}
use rotor_http.Stream.{Delivery, Expectation, bytes}

module _ (e : Env) (laws : BufferLaws e.ops) (peer : Option e.Addr) (seed : e.Seed) where
  open e use {Buf, Machine, Seed, Scope, Time, Addr, ops}
  open ops use {contents, consume}
  open laws use {contents-consume}

  abbrev pub wire : Buf → Buf → Transport Buf Addr
  wire inp out = record { input = inp; output = out; peer = peer }

  -- The state for the body of a request.
  awaits :
      (r : Incoming) {scope after : Scope} {text : Bytes}
      → Answers e r peer seed scope text after
      → Buf
      → ReadBody Machine Time
  awaits r a b = record {
    machine = some a.machine;
    deadline = a.deadline;
    response = (started e r b).1;
    progress = buffer_fixed 0;
    connection_close = false;
  }

  head_round :
      (r : Incoming) (end : ℕ) (inp out : Buf) (scope after : Scope) (text rest : Bytes)
      → Readable e r
      → (a : Answers e r peer seed scope text after) → contents inp ≡ r.text ++ rest
      → bytes_read e idle end seed (wire inp out) scope
        ≡ ret (
          Intent.of (reading_body (awaits r a out)) seed (bytes 0) a.deadline,
          wire (consume inp (length r.text)) out,
          a.between,
        )
  unfolding bytes_read read_head parsed_head scanned_head answered accept start_body intent_body
      body_expectation awaits new
  head_round r end inp out scope after text rest q a holds =
      rw (holds, q.reads rest, q.scans, q.has_version, q.has_method, q.has_path, a.takes out)

  body_round :
      (r : Incoming) (end : ℕ) (inp out : Buf) (scope after : Scope) (text : Bytes)
      (a : Answers e r peer seed scope text after)
      → (inp' : Buf) × (out' : Buf) × (bytes_read e
            (reading_body (awaits r a out))
            end
            seed
            (wire inp out)
            a.between
          ≡ ret (going e (intent_idle e seed after) (wire inp' out')))
        × (contents inp' ≡ contents inp)
        × (contents out' ≡ contents out ++ text)
  unfolding bytes_read read_body round read_buffer_fixed receive and_then after_round complete
      is_complete awaits new
  body_round r end inp out scope after text a =
      let (out', answer, grown) = a.answers out in
      (
        consume inp 0,
        out',
        rw (slice_middle 0 0 [] [] (contents inp) refl (omega arith), answer),
        contents-consume inp 0 (omega arith),
        grown,
      )

  module _ (d : Delivery) where
    serve_step :
        (fuel end : ℕ) (st : State e) (exp : Expectation) (deadline : Time) (t : Transport Buf Addr)
        (scope : Scope) (reply : Reply e)
        → d.deliver exp (contents t.input) ≡ some end
        → bytes_read e st end seed t scope ≡ ret reply
        → serve e d (suc fuel) (Intent.of st seed exp deadline, t, scope) ≡ serve e d fuel reply
    unfolding serve
    serve_step fuel end st exp deadline t scope reply h k = rw (h, k)

    -- What the input holds of requests is served, in order, and the connection waits for the next.
    pub serve-Serves :
        (rs : List Incoming) (inp out : Buf) (scope last : Scope) (answers : Bytes)
        (deadline : Time)
        → Serves e peer seed rs scope answers last
        → contents inp ≡ texts rs
        → (inp' : Buf) × (out' : Buf) × (deadline' : Time) × (serve e d
              (events rs)
              (Intent.of idle seed (bytes 1) deadline, wire inp out, scope)
            ≡ ret (Intent.of idle seed (bytes 1) deadline', wire inp' out', last))
          × (contents inp' ≡ [])
          × (contents out' ≡ contents out ++ answers)
    unfolding serve intent_idle
    serve-Serves [] inp out scope last answers deadline no_more holds =
        (inp, out, deadline, refl, holds, sym (append-nil (contents out)))
    serve-Serves (r ∷ rs) inp out scope last answers deadline
          (then_more {after = after} {text = text} {out = more} q a later) holds =
        let n = length r.text in
        let size = length-append r.text (texts rs) in
        let there : 1 ≤ length (contents inp) = rw holds (omega (arith, size, q.not_empty)) in
        let left : contents (consume inp n) ≡ texts rs =
          contents-consume inp n (rw holds (omega (arith, size)))
          ∙ rw holds (drop_prefix n r.text (texts rs) refl) in
        let (inp₁, out₁, body, same, grown) =
          body_round r 0 (consume inp n) out scope after text a in
        let (inp', out', deadline', runs, empty, all) =
          serve-Serves rs inp₁ out₁ (e.idle_timeout seed after).1 last more
            (e.add_time (e.now after) (e.idle_timeout seed after).0) later (same ∙ left) in
        (
          inp',
          out',
          deadline',
          serve_step (suc (events rs)) 1 idle (bytes 1) deadline (wire inp out) scope _
                (d.deliver_bytes 1 (contents inp) there)
                (head_round r 1 inp out scope after text (texts rs) q a holds)
              ∙ serve_step (events rs) 0 (reading_body (awaits r a out)) (bytes 0) a.deadline
                  (wire (consume inp n) out) a.between _
                  (d.deliver_bytes 0 (contents (consume inp n)) (omega arith)) body
              ∙ runs,
          empty,
          all ∙ rw grown (append_assoc (contents out) text more),
        )
