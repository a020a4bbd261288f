-- ===== src/Client/Parser/Safety.antt =====
-- client/parser.rs: when the connection of a client is used again.
use rotor_http.Prelude.{
  ℕ, ◌≡◌, refl, true, Bool-cases, inl, inr, none, some, Outcome, ret, panic, ◌>>=◌, Always,
  Always->>=, Always-bind, Always-ret,
}
use rotor_http.Client.Parser.Events.{bytes_read}
use rotor_http.Client.Parser.Reading.{
  Round, goes_on, finished, closed, round, after_round, read_body,
}
use rotor_http.Client.Parser.{
  connecting, idle, read_headers, response, Response, flushing, Intent, State, Reply, intent,
  finish, body_expectation,
}
use rotor_http.Client.Protocol.{Env, Transport}
use rotor_http.Client.Request.{Request}
use rotor_http.Message.State.{MessageState}
use rotor_http.Message.{is_complete}
use rotor_http.Stream.{Expectation}

is_complete-done : (s : MessageState) → is_complete s ≡ true → s ≡ MessageState.done
unfolding is_complete
is_complete-done MessageState.done h = refl
is_complete-done _ h = absurd (cc)

-- `Parser::finish` was reached with a request that is complete.
pub record Whole (e : Env) (o : Outcome (Round e)) : Type 0 where
  pub input : e.Buf
  pub request : Request e.Buf
  pub scope : e.Scope
  pub ended : o ≡ ret (finished input request scope)
  pub sent : request.message.1 ≡ MessageState.done

module _ (e : Env) where
  open e use {Buf, Cli, Req, Seed, Scope, Time, Io, ops, now, add_time}

  -- The intent to read a body goes on in the state.
  abbrev pub StaysIn : State e → Intent Cli Req Time × Scope → Type 0
  StaysIn st (Intent.of cli st' exp deadline, scope) = st' ≡ st
  StaysIn st (Intent.done, scope) = ⊥

  pub StaysIn-intent :
      (st : State e) (cli : Cli) (scope : Scope) → Always (StaysIn st) (intent e st cli scope)
  unfolding intent
  StaysIn-intent (connecting dline) cli scope = Always.returns refl
  StaysIn-intent (flushing dline) cli scope = Always.returns refl
  StaysIn-intent (idle dline) cli scope = Always.returns refl
  StaysIn-intent (read_headers rh) cli scope = Always.returns refl
  StaysIn-intent (response r) cli scope =
      Always->>= (body_expectation r.progress) _ (λ exp. Always.returns refl)

  -- If the reply is to flush the request and go idle, this holds.
  abbrev Reuses : Type 0 → Reply e → Type 0
  Reuses P (Intent.of cli (flushing dline) exp deadline, t, scope) = P
  Reuses P _ = Unit

  Reuses-response :
      (P : Type 0) (r : Response Req Time) (t : Transport Buf) (i : Intent Cli Req Time × Scope)
      → StaysIn (response r) i
      → Always (Reuses P) (ret (i.0, t, i.1))
  Reuses-response P r t (Intent.of cli (response r') exp deadline, scope) h = Always.returns tt
  Reuses-response P r t (Intent.of cli (flushing d) exp deadline, scope) h = absurd (cc)
  Reuses-response P r t (Intent.of cli (connecting d) exp deadline, scope) h = Always.returns tt
  Reuses-response P r t (Intent.of cli (idle d) exp deadline, scope) h = Always.returns tt
  Reuses-response P r t (Intent.of cli (read_headers rh) exp deadline, scope) h = Always.returns tt
  Reuses-response P r t (Intent.done, scope) h = absurd h

  Reuses-after_round :
      (r : Response Req Time) (cli : Cli) (o : Outcome (Round e))
      → Always (Reuses (Whole e o)) (do next ← o; after_round e r cli next)
  unfolding after_round finish intent
  Reuses-after_round r cli panic = Always.panics
  Reuses-after_round r cli (ret (goes_on none p inp req scope)) = Always.panics
  Reuses-after_round r cli (ret (closed inp req scope)) = Always.returns tt
  Reuses-after_round r cli (ret (goes_on (some m) p inp req scope)) =
      let r' = record r { progress = p; machine = m; request = req.message.1 } in
      Always-bind _ (StaysIn-intent (response r') cli scope) (λ i h. Reuses-response _ r' _ i h)
  Reuses-after_round r cli (ret (finished inp req scope)) =
      elim (Bool-cases (is_complete req.message.1)) [
        | inr part ↦ rw part (Always.returns tt)
        | inl whole ↦ rw whole (
            Always.returns (record {
              input = inp;
              request = req;
              scope = scope;
              ended = refl;
              sent = is_complete-done req.message.1 whole;
            }))
      ]

  -- A connection is used again only behind a request that has been sent whole: if input that
  -- arrives while a response is read is answered by waiting for the output to be flushed, the
  -- response has ended with the request complete. Otherwise no request follows.
  pub bytes_read-Whole :
      (r : Response Req Time) (end : ℕ) (cli cli' : Cli) (t t' : Transport Buf)
      (scope scope' : Scope) (exp : Expectation) (dline deadline : Time)
      → bytes_read e (response r) end cli t scope
        ≡ ret (Intent.of cli' (flushing dline) exp deadline, t', scope')
      → Whole e (
          round e r.progress end r.machine t.input
            (record { message = (t.output, r.request); is_head = none })
            scope)
  unfolding bytes_read read_body
  bytes_read-Whole r end cli cli' t t' scope scope' exp dline deadline h =
      Always-ret (Reuses-after_round r cli _) h
