-- ===== src/HelloWorld/Visits.antt =====
-- examples/hello_world_server.rs: the requests of a connection, one after the other.
use rotor_http.Prelude.{
  ℕ, suc, ◌+◌, ◌^◌, ◌<◌, ◌≡◌, List, [], ◌∷◌, ◌++◌, All, arith, Bytes, length, Option, ret,
  add_u64_fits,
}
use rotor_http.Buffer.{BufferLaws}
use rotor_http.HelloWorld.{
  Context, increment, plain, page_of, Scope, headers_received, request_received, hello_server,
}
use rotor_http.HelloWorld.Pages.{answer_of, send_answer-Adds}
use rotor_http.Server.Parser.{idle, Intent}
use rotor_http.Server.Protocol.{Env}
use rotor_http.Server.Session.{
  Incoming, Readable, Answers, Serves, no_more, then_more, serve, texts, events,
}
use rotor_http.Server.Session.Rounds.{serve-Serves}
use rotor_http.Stream.{Delivery, bytes}

-- The answers to requests, of which `n` came before.
abbrev pub answers_of : ℕ → List Incoming → Bytes
answers_of n [] = []
answers_of n (r ∷ rs) = answer_of (page_of r.path) r.is_head (n + 1) ++ answers_of (n + 1) rs

abbrev pub server : (e : Env) → (ℕ → e.Duration) → Env
server e seconds = hello_server e seconds plain

abbrev pub counted : {Time : Type 0} → Time → ℕ → Scope Context Time
counted now n = record { context = record { counter = n }; now = now }

module _ (e : Env) (laws : BufferLaws e.ops) (seconds : ℕ → e.Duration) (peer : Option e.Addr) where
  open e use {Buf, Time, Addr, ops}
  open ops use {contents}

  Answers-server :
      (r : Incoming) (now : Time) (n : ℕ)
      → n + 1 < 2 ^ 64
      → Answers
          (server e seconds)
          r
          peer
          tt
          (counted now n)
          (answer_of (page_of r.path) r.is_head (n + 1))
          (counted now (n + 1))
  unfolding headers_received request_received increment
  Answers-server r now n word = record {
    machine = page_of r.path;
    limit = 1024;
    deadline = e.add_time now (seconds 10);
    between = counted now (n + 1);
    takes = λ b. rw (add_u64_fits n 1 word);
    answers = λ b.
        let (b', sent, grown) =
          send_answer-Adds ops laws plain (λ t. e.add_time t (seconds 10)) (page_of r.path)
            r.is_head b (record { counter = n + 1 }) in
        (b', rw sent, grown);
  }

  Serves-server :
      (rs : List Incoming) (now : Time) (n : ℕ)
      → All (Readable (server e seconds)) rs
      → n + length rs < 2 ^ 64
      → Serves
          (server e seconds)
          peer
          tt
          rs
          (counted now n)
          (answers_of n rs)
          (counted now (n + length rs))
  Serves-server [] now n h word = let none_more : n + 0 ≡ n = omega arith in rw none_more no_more
  Serves-server (r ∷ rs) now n h word =
      let one_more : n + suc (length rs) ≡ n + 1 + length rs = omega arith in
      rw one_more (
        then_more h.0 (Answers-server r now n (omega arith))
          (Serves-server rs now (n + 1) h.1 (omega arith)))

  -- A connection to the greeting server is kept and counts its visits: when any number of requests
  -- with no body has arrived, each with a head that httparse reads, of HTTP/1.1, without `Expect` and
  -- not to be closed behind, and the count stays a u64, then the events of the connection end in the
  -- wait for the next request, with nothing left in the input; the output has grown by the answers, in
  -- the order of the requests, each of them for its path, with the length of its page, without the
  -- page in answer to HEAD, and with the number of the requests that have come so far where that is
  -- asked for; and every request is counted.
  pub serve-answers :
      (d : Delivery) (rs : List Incoming) (inp out : Buf) (now deadline : Time) (n : ℕ)
      → All (Readable (server e seconds)) rs
      → n + length rs < 2 ^ 64
      → contents inp ≡ texts rs
      → (inp' : Buf) × (out' : Buf) × (deadline' : Time) × (serve (server e seconds) d (events rs) (
        Intent.of idle tt (bytes 1) deadline,
        record { input = inp; output = out; peer = peer },
        counted now n,
      )
          ≡ ret (
            Intent.of idle tt (bytes 1) deadline',
            record { input = inp'; output = out'; peer = peer },
            counted now (n + length rs),
          ))
        × (contents inp' ≡ [])
        × (contents out' ≡ contents out ++ answers_of n rs)
  serve-answers d rs inp out now deadline n h word holds =
      serve-Serves (server e seconds) laws peer tt d rs inp out (counted now n)
        (counted now (n + length rs)) (answers_of n rs) deadline (Serves-server rs now n h word)
        holds
