-- ===== src/Client/Parser/Limits.antt =====
-- client/parser.rs: the limit of a buffered chunked response.
use rotor_http.Prelude.{
  Bytes, Outcome, panic, ◌>>=◌, ℕ, zero, suc, ◌+◌, ◌^◌, ◌≤◌, ◌≡◌, refl, ltb, ltb→le, ◌==◌,
  Bool-cases, inl, inr, none, some, ret, assert, arith, add_u64, sub_u64, slice, Always, Always->>=,
  Always-bind, Always-ret,
}
use rotor_http.Client.Parser.Events.{
  bytes_read, bytes_flushed, tell_requester, exception, timeout, wakeup,
}
use rotor_http.Client.Error.{protocol_error}
use rotor_http.Client.Parser.Phase.{Event, handle}
use rotor_http.Client.Parser.Safety.{StaysIn, StaysIn-intent}
use rotor_http.Client.Parser.Reading.{
  Round, goes_on, finished, closed, refuse, receive, read_buffer_size, buffered_size,
  read_buffer_chunk, round, after_round, read_body,
}
use rotor_http.Client.Parser.{
  BodyProgress, buffer_fixed, buffer_eof, buffer_chunked, progressive_fixed, progressive_eof,
  progressive_chunked, response, Response, Intent, Reply, intent, finish, consumed,
}
use rotor_http.Client.Protocol.{Env, Transport}
use rotor_http.Client.Request.{Request}
use rotor_http.Message.{is_complete}
use rotor_http.Stream.{ChunkSize, Expectation, size_of, announced, line_at}

-- A buffered chunked body whose chunks add up to a size, within the limit.
abbrev pub Within : ℕ → ℕ → BodyProgress → Type 0
Within l n (buffer_chunked limit off left) = (limit ≡ l) × (off + left ≡ n) × (n ≤ l)
Within l n _ = ⊥

-- The size of the chunks of a body with what a round adds: the size of a chunk, where the round
-- reads the size line.
abbrev with_announced : (Bytes → ChunkSize) → ℕ → BodyProgress → ℕ → Bytes → ℕ
with_announced parse n (buffer_chunked limit off zero) end input =
    n + announced parse (slice (line_at off) (line_at off + end + 2) input)
with_announced parse n p end input = n

consumed-line_at : (off : ℕ) → consumed off ≡ line_at off
unfolding consumed
consumed-line_at zero = refl
consumed-line_at (suc k) = ground arith

-- The sum of the chunks of a body, behind an event.
abbrev pub summed : {Io : Type 0} → (Bytes → ChunkSize) → ℕ → Event Io → BodyProgress → Bytes → ℕ
summed parse n (Event.arrived end) p input = with_announced parse n p end input
summed parse n _ p input = n

module _ (e : Env) where
  open e use {Buf, Cli, Req, Scope, Time, Io, ops}

  -- Where the body goes on, it is still within the limit.
  abbrev KeepsRound : ℕ → ℕ → Round e → Type 0
  KeepsRound l n (goes_on m p inp req scope) = Within l n p
  KeepsRound l n _ = Unit

  abbrev KeepsReply : ℕ → ℕ → Reply e → Type 0
  KeepsReply l n (Intent.of cli (response r) exp deadline, t, scope) = Within l n r.progress
  KeepsReply l n _ = Unit

  KeepsRound-refuse :
      (l n : ℕ) (x : _) (m : Req) (inp : Buf) (req : Request Buf) (scope : Scope)
      → Always (KeepsRound l n) (refuse e x m inp req scope)
  unfolding refuse
  KeepsRound-refuse l n x m inp req scope =
      Always->>= (e.bad_response m x scope) _ (λ s. Always.returns tt)

  KeepsRound-buffered_size :
      (size : ChunkSize) (limit off end : ℕ) (m : Req) (inp : Buf) (req : Request Buf)
      (scope : Scope)
      → Always
          (KeepsRound limit (off + size_of size))
          (buffered_size e size limit off end m inp req scope)
  unfolding buffered_size add_u64
  KeepsRound-buffered_size (ChunkSize.complete i zero) limit off end m inp req scope =
      Always->>= (receive e 0 off m (ops.remove_range inp off (consumed off + end + 2)) req scope) _
        (λ a. Always.returns tt)
  KeepsRound-buffered_size (ChunkSize.complete i (suc k)) limit off end m inp req scope =
      elim (Bool-cases (ltb (off + suc k) (2 ^ 64))) [
        | inr over ↦ rw over Always.panics
        | inl fits ↦ elim (Bool-cases (ltb limit (off + suc k))) [
          | inl above ↦ rw (fits, above) (KeepsRound-refuse limit _ _ m _ req scope)
          | inr below ↦
              rw (fits, below) (Always.returns (refl, refl, ltb→le limit (off + suc k) below))
        ]
      ]
  KeepsRound-buffered_size ChunkSize.partial limit off end m inp req scope = Always.panics
  KeepsRound-buffered_size ChunkSize.invalid limit off end m inp req scope =
      KeepsRound-refuse limit _ _ m _ req scope

  KeepsRound-read_buffer_size :
      (limit off end : ℕ) (m : Req) (inp : Buf) (req : Request Buf) (scope : Scope)
      (o : Outcome Bytes)
      → Always
          (KeepsRound limit (off + announced e.parse_chunk_size o))
          (do head ← o; buffered_size e (e.parse_chunk_size head) limit off end m inp req scope)
  KeepsRound-read_buffer_size limit off end m inp req scope (ret head) =
      KeepsRound-buffered_size (e.parse_chunk_size head) limit off end m inp req scope
  KeepsRound-read_buffer_size limit off end m inp req scope panic = Always.panics

  KeepsRound-round :
      (l n : ℕ) (p : BodyProgress) (end : ℕ) (m : Req) (inp : Buf) (req : Request Buf)
      (scope : Scope)
      → Within l n p
      → Always
          (KeepsRound l (with_announced e.parse_chunk_size n p end (ops.contents inp)))
          (round e p end m inp req scope)
  unfolding round read_buffer_size read_buffer_chunk
  KeepsRound-round l n (buffer_chunked limit off zero) end m inp req scope (same, sum, fits) =
      let all : n ≡ off = omega (arith, sum) in
      rw (all, ← same, ← consumed-line_at off)
        (KeepsRound-read_buffer_size limit off end m inp req scope
          (slice (consumed off) (consumed off + end + 2) (ops.contents inp)))
  KeepsRound-round l n (buffer_chunked limit off (suc k)) end m inp req scope (same, sum, fits) =
      Always->>= (sub_u64 end 2) _ (λ last.
        Always->>= (assert (off + suc k == last)) _
          (λ u. Always.returns (same, omega (arith, sum), fits)))
  KeepsRound-round l n (buffer_fixed x) end m inp req scope h = absurd h
  KeepsRound-round l n (buffer_eof x) end m inp req scope h = absurd h
  KeepsRound-round l n (progressive_fixed x y) end m inp req scope h = absurd h
  KeepsRound-round l n (progressive_eof x) end m inp req scope h = absurd h
  KeepsRound-round l n (progressive_chunked x y z) end m inp req scope h = absurd h

  KeepsReply-response :
      (l n : ℕ) (r : Response Req Time) (t : Transport Buf) (i : Intent Cli Req Time × Scope)
      → Within l n r.progress
      → StaysIn e (response r) i
      → Always (KeepsReply l n) (ret (i.0, t, i.1))
  KeepsReply-response l n r t (Intent.of cli st exp deadline, scope) h same =
      rw same (Always.returns h)
  KeepsReply-response l n r t (Intent.done, scope) h same = absurd same

  KeepsReply-after_round :
      (l n : ℕ) (r : Response Req Time) (cli : Cli) (next : Round e)
      → KeepsRound l n next
      → Always (KeepsReply l n) (after_round e r cli next)
  unfolding after_round finish intent
  KeepsReply-after_round l n r cli (goes_on none p inp req scope) h = Always.panics
  KeepsReply-after_round l n r cli (closed inp req scope) h = Always.returns tt
  KeepsReply-after_round l n r cli (goes_on (some m) p inp req scope) h =
      let r' = record r { progress = p; machine = m; request = req.message.1 } in
      Always-bind _ (StaysIn-intent e (response r') cli scope)
        (λ i same. KeepsReply-response l n r' _ i h same)
  KeepsReply-after_round l n r cli (finished inp req scope) h =
      elim (Bool-cases (is_complete req.message.1)) [
        | inr part ↦ rw part (Always.returns tt)
        | inl whole ↦ rw whole (Always.returns tt)
      ]

  KeepsReply-handle :
      (l n : ℕ) (event : Event Io) (r : Response Req Time) (cli : Cli) (t : Transport Buf)
      (scope : Scope)
      → Within l n r.progress
      → Always
          (KeepsReply l (summed e.parse_chunk_size n event r.progress (ops.contents t.input)))
          (handle e event (response r) cli t scope)
  unfolding bytes_read read_body bytes_flushed timeout wakeup exception
  KeepsReply-handle l n (Event.arrived end) r cli t scope h =
      Always-bind _ (KeepsRound-round l n r.progress end r.machine t.input _ scope h)
        (λ next kept. KeepsReply-after_round l _ r cli next kept)
  KeepsReply-handle l n Event.flushed r cli t scope h = Always.panics
  KeepsReply-handle l n Event.timed_out r cli t scope h = Always.panics
  KeepsReply-handle l n Event.woken r cli t scope h = Always.panics
  KeepsReply-handle l n (Event.broken x) r cli t scope h =
      Always->>= (protocol_error x) _ (λ reason.
        Always->>= (tell_requester e (response r) reason scope) _ (λ scope₁.
          Always->>= (e.connection_error cli reason scope₁) _ (λ scope₂. Always.returns tt)))

  -- A buffered chunked response that is read, by the sum of the sizes that its size lines have
  -- announced: from its start, over any events with any input, as long as they are handled without a
  -- panic and the connection goes on with the body.
  pub data Reads (l : ℕ) : Response Req Time → ℕ → Type 0 where
    begins : {r : Response Req Time} → r.progress ≡ buffer_chunked l 0 0 → Reads l r 0
    then_event :
        {r r' : Response Req Time} {n : ℕ} {cli' : Cli} {t' : Transport Buf} {scope' : Scope}
        {exp : Expectation} {deadline : Time} (event : Event Io) (cli : Cli) (t : Transport Buf)
        (scope : Scope)
        → Reads l r n
        → handle e event (response r) cli t scope
          ≡ ret (Intent.of cli' (response r') exp deadline, t', scope')
        → Reads l r' (summed e.parse_chunk_size n event r.progress (ops.contents t.input))

  -- A buffered chunked response never outgrows the limit that the handler has set: over any events
  -- with any input, from the start of the body as long as the connection goes on with it, the sizes
  -- of all chunks that the size lines have announced add up to no more than the limit, and what
  -- the parser keeps as buffered and as left of the chunk adds up to the same.
  pub Reads-limited : (l : ℕ) (r : Response Req Time) (n : ℕ) → Reads l r n → Within l n r.progress
  Reads-limited l r n (Reads.begins start) = rw start (refl, refl, omega arith)
  Reads-limited l r n (Reads.then_event {r = before} {n = sum} event cli t scope reads step) =
      Always-ret
        (KeepsReply-handle l sum event before cli t scope (Reads-limited l before sum reads)) step
