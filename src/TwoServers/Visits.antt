-- ===== src/TwoServers/Visits.antt =====
-- examples/two_servers.rs: any sequence of requests to both servers.
use rotor_http.Prelude.{
  ℕ, suc, ◌+◌, ◌^◌, ◌<◌, ◌≡◌, refl, List, [], ◌∷◌, ◌++◌, All, arith, Bytes, codes, length, Option,
  Outcome, ret, ◌>>=◌, add_u64_fits,
}
use rotor_http.Buffer.{BufferLaws}
use rotor_http.HelloWorld.{increment, send_string, Scope, Context}
use rotor_http.HelloWorld.Pages.{response_of, send_page-Adds}
use rotor_http.HelloWorld.Visits.{counted}
use rotor_http.Server.Parser.{idle, Intent}
use rotor_http.Server.Protocol.{Env}
use rotor_http.Server.Session.{
  Incoming, Readable, Answers, Serves, no_more, then_more, serve, texts, events,
}
use rotor_http.Server.Session.Rounds.{serve-Serves}
use rotor_http.Std.Radix.{to_string}
use rotor_http.Stream.{Delivery, bytes}
use rotor_http.TwoServers.Get
use rotor_http.TwoServers.Incr

-- What the two servers answer to requests; the number is that of the requests to `Incr`.
abbrev pub greetings : List Incoming → Bytes
greetings [] = []
greetings (r ∷ rs) = response_of 200 (codes "OK") r.is_head (codes "Hello World!") ++ greetings rs

abbrev pub number : ℕ → Bytes
number n = codes "This host has been visited " ++ (to_string n ++ codes " times")

abbrev pub numbers : ℕ → List Incoming → Bytes
numbers n [] = []
numbers n (r ∷ rs) = response_of 200 (codes "OK") r.is_head (number n) ++ numbers n rs

-- Requests that have arrived on a connection of one of the servers.
pub data Visit (Buf : Type 0) : Type 0 where
  to_incr to_get : List Incoming → Buf → Buf → Visit Buf

module _ {Buf : Type 0} where
  abbrev pub texts_of : (Buf → Bytes) → List Buf → List Bytes
  texts_of contents [] = []
  texts_of contents (b ∷ bs) = contents b ∷ texts_of contents bs

  -- The requests to `Incr`.
  abbrev pub increments : List (Visit Buf) → ℕ
  increments [] = 0
  increments (to_incr rs inp out ∷ vs) = length rs + increments vs
  increments (to_get rs inp out ∷ vs) = increments vs

  -- The outputs behind the visits.
  abbrev pub outputs : (Buf → Bytes) → ℕ → List (Visit Buf) → List Bytes
  outputs contents n [] = []
  outputs contents n (to_incr rs inp out ∷ vs) =
      (contents out ++ greetings rs) ∷ outputs contents (n + length rs) vs
  outputs contents n (to_get rs inp out ∷ vs) =
      (contents out ++ numbers n rs) ∷ outputs contents n vs

module _ (e : Env) (laws : BufferLaws e.ops) (seconds : ℕ → e.Duration) (peer : Option e.Addr) where
  open e use {Buf, Time, ops}
  open ops use {contents}

  Answers-incr :
      (r : Incoming) (now : Time) (n : ℕ)
      → n + 1 < 2 ^ 64
      → Answers
          (Incr.server e seconds)
          r
          peer
          tt
          (counted now n)
          (response_of 200 (codes "OK") r.is_head (codes "Hello World!"))
          (counted now (n + 1))
  unfolding Incr.headers_received Incr.request_received increment send_string
  Answers-incr r now n word = record {
    machine = Incr.incr;
    limit = 1024;
    deadline = e.add_time now (seconds 10);
    between = counted now (n + 1);
    takes = λ b. rw (add_u64_fits n 1 word);
    answers = λ b.
        let (b', sent, grown) =
          send_page-Adds ops laws 200 (codes "OK") r.is_head (codes "Hello World!") b refl refl in
        (b', rw sent, grown);
  }

  Answers-get :
      (r : Incoming) (now : Time) (n : ℕ)
      → Answers
          (Get.server e seconds)
          r
          peer
          tt
          (counted now n)
          (response_of 200 (codes "OK") r.is_head (number n))
          (counted now n)
  unfolding Get.headers_received Get.request_received send_string
  Answers-get r now n = record {
    machine = Get.get;
    limit = 1024;
    deadline = e.add_time now (seconds 10);
    between = counted now n;
    takes = λ b. refl;
    answers = λ b.
        let (b', sent, grown) =
          send_page-Adds ops laws 200 (codes "OK") r.is_head (number n) b refl refl in
        (b', rw sent, grown);
  }

  Serves-incr :
      (rs : List Incoming) (now : Time) (n : ℕ)
      → All (Readable (Incr.server e seconds)) rs
      → n + length rs < 2 ^ 64
      → Serves
          (Incr.server e seconds)
          peer
          tt
          rs
          (counted now n)
          (greetings rs)
          (counted now (n + length rs))
  Serves-incr [] now n h word = let none_more : n + 0 ≡ n = omega arith in rw none_more no_more
  Serves-incr (r ∷ rs) now n h word =
      let one_more : n + suc (length rs) ≡ n + 1 + length rs = omega arith in
      rw one_more (
        then_more h.0 (Answers-incr r now n (omega arith))
          (Serves-incr rs now (n + 1) h.1 (omega arith)))

  Serves-get :
      (rs : List Incoming) (now : Time) (n : ℕ)
      → All (Readable (Get.server e seconds)) rs
      → Serves (Get.server e seconds) peer tt rs (counted now n) (numbers n rs) (counted now n)
  Serves-get [] now n h = no_more
  Serves-get (r ∷ rs) now n h = then_more h.0 (Answers-get r now n) (Serves-get rs now n h.1)

  module _ (d : Delivery) (deadline : Time) where
    -- A visit, from the wait for a request, and the output behind it.
    abbrev pub visit : Visit Buf → Scope Context Time → Outcome (Buf × Scope Context Time)
    visit (to_incr rs inp out) scope = do
      (i, t, scope') ← serve (Incr.server e seconds) d (events rs) (
        Intent.of idle tt (bytes 1) deadline,
        record { input = inp; output = out; peer = peer },
        scope,
      )
      ret (t.output, scope')
    visit (to_get rs inp out) scope = do
      (i, t, scope') ← serve (Get.server e seconds) d (events rs) (
        Intent.of idle tt (bytes 1) deadline,
        record { input = inp; output = out; peer = peer },
        scope,
      )
      ret (t.output, scope')

    -- Visits of any connections, in any order.
    pub visits : List (Visit Buf) → Scope Context Time → Outcome (List Buf × Scope Context Time)
    visits [] scope = ret ([], scope)
    visits (v ∷ vs) scope = do
      (out, scope') ← visit v scope
      (outs, last) ← visits vs scope'
      ret (out ∷ outs, last)

    -- The requests of a visit can be read, and they are what its input holds.
    abbrev pub Arrived : Visit Buf → Type 0
    Arrived (to_incr rs inp out) =
        All (Readable (Incr.server e seconds)) rs × (contents inp ≡ texts rs)
    Arrived (to_get rs inp out) =
        All (Readable (Get.server e seconds)) rs × (contents inp ≡ texts rs)

    -- The two servers of the program share their counter: over any sequence of visits, each some
    -- requests that have arrived on any connection of either server, with no body and with heads
    -- that httparse reads, of HTTP/1.1, without `Expect` and not to be closed behind, every request
    -- is answered, in order; each request to the one server is counted, as long as the count stays a
    -- u64; and each answer of the other tells how many requests the first has had so far, over all
    -- connections.
    pub visits-counted :
        (vs : List (Visit Buf)) (now : Time) (n : ℕ)
        → All Arrived vs
        → n + increments vs < 2 ^ 64
        → (outs : List Buf) × (visits vs (counted now n)
            ≡ ret (outs, counted now (n + increments vs)))
          × (texts_of contents outs ≡ outputs contents n vs)
    unfolding visits
    visits-counted [] now n h word =
        let none_more : n + 0 ≡ n = omega arith in ([], rw none_more refl, refl)
    visits-counted (to_incr rs inp out ∷ vs) now n ((q, holds), h) word =
        let m = n + length rs in
        let (inp', out', after, runs, gone, grown) =
          serve-Serves (Incr.server e seconds) laws peer tt d rs inp out (counted now n)
            (counted now m) (greetings rs) deadline (Serves-incr rs now n q (omega arith)) holds in
        let (outs, goes, told) = visits-counted vs now m h (omega arith) in
        let sum : n + (length rs + increments vs) ≡ m + increments vs = omega arith in
        (out' ∷ outs, rw (runs, goes, sum) refl, rw (grown, told) refl)
    visits-counted (to_get rs inp out ∷ vs) now n ((q, holds), h) word =
        let (inp', out', after, runs, gone, grown) =
          serve-Serves (Get.server e seconds) laws peer tt d rs inp out (counted now n)
            (counted now n) (numbers n rs) deadline (Serves-get rs now n q) holds in
        let (outs, goes, told) = visits-counted vs now n h word in
        (out' ∷ outs, rw (runs, goes) refl, rw (grown, told) refl)
