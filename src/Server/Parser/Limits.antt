-- ===== src/Server/Parser/Limits.antt =====
-- The limit of a buffered chunked body, over all events of a connection; and how an exception
-- leaves a connection.
use rotor_http.Prelude.{
  Bytes, ℕ, zero, suc, ◌+◌, ◌^◌, ◌≤◌, ◌≡◌, refl, Bool, not, ◌==◌, ltb, ltb→le, if◌then◌else◌,
  Bool-cases, inl, inr, Option, none, some, Outcome, ret, panic, Always, Always->>=, ◌>>=◌, assert,
  arith, add_u64, sub_u64, slice,
}
use rotor_http.Message.{Message, is_started, is_complete}
use rotor_http.Server.Error.{RequestError}
use rotor_http.Server.Parser.{
  BodyProgress, buffer_fixed, buffer_chunked, progressive_fixed, progressive_chunked, consumed,
  ReadBody, idle, read_headers, reading_body, processing, done_response, Intent, Expectation,
  body_expectation, intent_idle, intent_flush, intent_body, complete,
}
use rotor_http.Server.Parser.Events.{
  Exception, limit_reached, end_of_stream, other, State, give_up, abort, awaits_size, exception,
}
use rotor_http.Server.Parser.Head.{Reply, going, fail_with}
use rotor_http.Server.Parser.Reading.{
  Round, goes_on, refused, refuse, reject, receive, read_buffer_size, buffered_size,
  read_buffer_chunk, round, after_round,
}
use rotor_http.Server.Protocol.{Env, Transport, ChunkSize}
use rotor_http.Stream.{size_of, announced, line_at}

-- A buffered chunked body whose chunks add up to a size, within the limit.
abbrev pub Within : ℕ → ℕ → BodyProgress → Type 0
Within l n (buffer_chunked limit off left) = (limit ≡ l) × (off + left ≡ n) × (n ≤ l)
Within l n _ = ⊥

-- The size of the chunks of a body with what a round adds: the size of a chunk, where the round
-- reads the size line.
abbrev pub with_announced : (Bytes → ChunkSize) → ℕ → BodyProgress → ℕ → Bytes → ℕ
with_announced parse n (buffer_chunked limit off zero) end input =
    n + announced parse (slice (line_at off) (line_at off + end + 2) input)
with_announced parse n p end input = n

consumed-line_at : (off : ℕ) → consumed off ≡ line_at off
unfolding consumed
consumed-line_at zero = refl
consumed-line_at (suc k) = ground arith

module _ (e : Env) where
  open e use {Buf, Machine, Seed, Scope, Time, Addr, ParseError, ops}

  -- Where the body goes on, it is still within the limit.
  abbrev pub KeepsRound : ℕ → ℕ → Round e → Type 0
  KeepsRound l n (goes_on m (some p) inp resp scope) = Within l n p
  KeepsRound l n _ = Unit

  abbrev pub KeepsReply : ℕ → ℕ → Reply e → Type 0
  KeepsReply l n (Intent.of (reading_body rb) seed exp deadline, t, scope) = Within l n rb.progress
  KeepsReply l n _ = Unit

  KeepsRound-refuse :
      (l n : ℕ) (x : _) (machine : Option Machine) (seed : Seed) (inp : Buf) (resp : Message Buf)
      (scope : Scope)
      → Always (KeepsRound l n) (refuse e x machine seed inp resp scope)
  unfolding refuse
  KeepsRound-refuse l n x machine seed inp resp scope =
      Always->>= (reject e machine resp scope) _
        (λ (r, s). Always->>= (e.emit_error_page x r seed s) _ (λ b. Always.returns tt))

  KeepsRound-buffered_size :
      (size : ChunkSize) (limit off line_end : ℕ) (machine : Option Machine) (seed : Seed)
      (inp : Buf) (resp : Message Buf) (scope : Scope)
      → Always
          (KeepsRound limit (off + size_of size))
          (buffered_size e size limit off line_end machine seed inp resp scope)
  unfolding buffered_size add_u64
  KeepsRound-buffered_size (ChunkSize.complete i zero) limit off line_end machine seed inp resp
        scope =
      Always->>= (receive e 0 off machine (ops.remove_range inp off line_end) resp scope) _
        (λ a. Always.returns tt)
  KeepsRound-buffered_size (ChunkSize.complete i (suc k)) limit off line_end machine seed inp resp
        scope =
      elim (Bool-cases (ltb (off + suc k) (2 ^ 64))) [
        | inr over ↦ rw over Always.panics
        | inl fits ↦ elim (Bool-cases (ltb limit (off + suc k))) [
          | inl above ↦ rw (fits, above) (KeepsRound-refuse limit _ _ machine seed _ resp scope)
          | inr below ↦
              rw (fits, below) (Always.returns (refl, refl, ltb→le limit (off + suc k) below))
        ]
      ]
  KeepsRound-buffered_size ChunkSize.partial limit off line_end machine seed inp resp scope =
      Always.panics
  KeepsRound-buffered_size ChunkSize.invalid limit off line_end machine seed inp resp scope =
      KeepsRound-refuse limit _ _ machine seed _ resp scope

  KeepsRound-read_buffer_size :
      (limit off end : ℕ) (machine : Option Machine) (seed : Seed) (inp : Buf) (resp : Message Buf)
      (scope : Scope) (o : Outcome Bytes)
      → Always (KeepsRound limit (off + announced e.parse_chunk_size o)) (do
        head ← o
        buffered_size e (e.parse_chunk_size head) limit off end machine seed inp resp scope)
  KeepsRound-read_buffer_size limit off end machine seed inp resp scope (ret head) =
      KeepsRound-buffered_size (e.parse_chunk_size head) limit off end machine seed inp resp scope
  KeepsRound-read_buffer_size limit off end machine seed inp resp scope panic = Always.panics

  pub KeepsRound-round :
      (l n : ℕ) (p : BodyProgress) (end : ℕ) (machine : Option Machine) (seed : Seed) (inp : Buf)
      (resp : Message Buf) (scope : Scope)
      → Within l n p
      → Always
          (KeepsRound l (with_announced e.parse_chunk_size n p end (ops.contents inp)))
          (round e p end machine seed inp resp scope)
  unfolding round read_buffer_size read_buffer_chunk
  KeepsRound-round l n (buffer_chunked limit off zero) end machine seed inp resp scope
        (same, sum, fits) =
      let all : n ≡ off = omega (arith, sum) in
      rw (all, ← same, ← consumed-line_at off)
        (KeepsRound-read_buffer_size limit off _ machine seed inp resp scope
          (slice (consumed off) (consumed off + end + 2) (ops.contents inp)))
  KeepsRound-round l n (buffer_chunked limit off (suc k)) end machine seed inp resp scope
        (same, sum, fits) =
      Always->>= (sub_u64 end 2) _ (λ last.
        Always->>= (assert (off + suc k == last)) _
          (λ u. Always.returns (same, omega (arith, sum), fits)))
  KeepsRound-round l n (buffer_fixed x) end machine seed inp resp scope h = absurd h
  KeepsRound-round l n (progressive_fixed x y) end machine seed inp resp scope h = absurd h
  KeepsRound-round l n (progressive_chunked x y z) end machine seed inp resp scope h = absurd h

  pub KeepsReply-intent_body :
      (l n : ℕ) (rb : ReadBody Machine Time) (seed : Seed) (t : Transport Buf Addr) (scope : Scope)
      → Within l n rb.progress
      → Always (KeepsReply l n) (do intent ← intent_body e seed rb; ret (intent, t, scope))
  unfolding intent_body
  KeepsReply-intent_body l n rb seed t scope h = KeepsExp (body_expectation rb.progress)
    where
      KeepsExp :
          (o : Outcome Expectation)
          → Always (KeepsReply l n) (do
            intent ← (do exp ← o; ret (Intent.of (reading_body rb) seed exp rb.deadline))
            ret (intent, t, scope))
      KeepsExp (ret x) = Always.returns h
      KeepsExp panic = Always.panics

  pub KeepsReply-complete :
      (l n : ℕ) (seed : Seed) (scope : Scope) (m : Option Machine) (state : _) (close : Bool)
      (deadline : Time) (t : Transport Buf Addr)
      → Always
          (KeepsReply l n)
          (do reply ← complete e seed scope m state close deadline; ret (going e reply t))
  unfolding complete intent_flush intent_idle
  KeepsReply-complete l n seed scope (some m) state close deadline t = Always.returns tt
  KeepsReply-complete l n seed scope none state close deadline t =
      elim (Bool-cases (is_complete state)) [
        | inr part ↦ rw part Always.panics
        | inl whole ↦ elim (Bool-cases close) [
          | inl y ↦ rw (whole, y) (Always.returns tt)
          | inr keeps ↦ rw (whole, keeps) (Always.returns tt)
        ]
      ]

  pub KeepsReply-after_round :
      (l n : ℕ) (rb : ReadBody Machine Time) (seed : Seed) (t : Transport Buf Addr)
      (o : Outcome (Round e))
      → Always (KeepsRound l n) o
      → Always (KeepsReply l n) (do r ← o; after_round e rb seed t r)
  unfolding after_round intent_flush
  KeepsReply-after_round l n rb seed t panic h = Always.panics
  KeepsReply-after_round l n rb seed t (ret (refused inp resp scope)) h = Always.returns tt
  KeepsReply-after_round l n rb seed t (ret (goes_on m none inp resp scope)) h =
      KeepsReply-complete l n seed scope m resp.1 rb.connection_close rb.deadline _
  KeepsReply-after_round l n rb seed t (ret (goes_on m (some p) inp resp scope))
        (Always.returns h) =
      KeepsReply-intent_body l n (record rb { machine = m; progress = p; response = resp.1 }) seed _
        scope h

  -- The connection is closed, at once or when the output is flushed.
  abbrev pub Ends : Reply e → Type 0
  Ends (Intent.done, t, scope) = Unit
  Ends (Intent.of done_response seed exp deadline, t, scope) = Unit
  Ends _ = ⊥

  pub Ends-KeepsReply : (l n : ℕ) (r : Reply e) → Ends r → KeepsReply l n r
  Ends-KeepsReply l n (Intent.done, t, scope) h = tt
  Ends-KeepsReply l n (Intent.of done_response seed exp deadline, t, scope) h = tt
  Ends-KeepsReply l n (Intent.of idle seed exp deadline, t, scope) h = tt
  Ends-KeepsReply l n (Intent.of read_headers seed exp deadline, t, scope) h = tt
  Ends-KeepsReply l n (Intent.of (processing m r c d) seed exp deadline, t, scope) h = tt
  Ends-KeepsReply l n (Intent.of (reading_body rb) seed exp deadline, t, scope) h = absurd h

  pub Ends-give_up :
      (x : RequestError ParseError) (resp : Message Buf) (seed : Seed) (t : Transport Buf Addr)
      (scope : Scope)
      → Always Ends (give_up e x resp seed t scope)
  unfolding give_up fail_with intent_flush
  Ends-give_up x resp seed t scope = elim (Bool-cases (is_started resp.1)) [
    | inl y ↦ rw y (Always.returns tt)
    | inr n ↦ rw n (Always->>= (e.emit_error_page x resp seed scope) _ (λ a. Always.returns tt))
  ]

  Ends-abort :
      (x : RequestError ParseError) (rb : ReadBody Machine Time) (seed : Seed)
      (t : Transport Buf Addr) (scope : Scope)
      → Always Ends (abort e x rb seed t scope)
  unfolding abort intent_flush
  Ends-abort x rb seed t scope =
      Always->>= (reject e rb.machine (t.output, rb.response) scope) _ (λ (r, s).
        Always->>= (if not (is_started r.1) then e.emit_error_page x r seed s else ret (r, s)) _
          (λ (r', s'). elim (Bool-cases (is_complete r'.1)) [
            | inl y ↦ rw y (Always.returns tt)
            | inr n ↦ rw n (Always.returns tt)
          ]))

  pub Ends-exception :
      (st : State e) (x : Exception) (seed : Seed) (t : Transport Buf Addr) (scope : Scope)
      → Always Ends (exception e st x seed t scope)
  unfolding exception
  Ends-exception (reading_body rb) limit_reached seed t scope =
      Always->>= (assert (awaits_size rb.progress)) _ (λ u. Ends-abort _ rb seed t scope)
  Ends-exception (reading_body rb) end_of_stream seed t scope = Ends-abort _ rb seed t scope
  Ends-exception (reading_body rb) other seed t scope = Always.returns tt
  Ends-exception idle x seed t scope = Always.returns tt
  Ends-exception read_headers x seed t scope = Always.returns tt
  Ends-exception (processing m r c d) x seed t scope = Always.returns tt
  Ends-exception done_response x seed t scope = Always.returns tt
