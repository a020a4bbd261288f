-- ===== src/Client/Parser/Arrivals.antt =====
-- client/parser.rs: a response of declared length that is handed over in parts, over any sequence of arrivals.
use rotor_http.Prelude.{
  min_left, min_right, ℕ, ◌+◌, ◌-◌, ◌<◌, ◌≡◌, refl, ap, ◌∙◌, true, false, List, [], ◌∷◌, ◌++◌,
  append_assoc, append-nil, arith, Bytes, length, length-append, drop_prefix, ◌==◌, some, Outcome,
  ret, ◌>>=◌, slice_middle,
}
use rotor_http.Buffer.{BufferLaws}
use rotor_http.Client.Parser.Chunks.{resumed, again}
use rotor_http.Client.Parser.Reading.{
  Round, goes_on, finished, round, read_progressive_fixed, receive_chunk, end_response,
}
use rotor_http.Client.Parser.{BodyProgress, progressive_fixed}
use rotor_http.Client.Protocol.{Env}
use rotor_http.Client.Request.{Request}
use rotor_http.Message.Payload.Dechunk.{concat}

-- A handler that takes every part and keeps what it took, in `taken`.
pub record Collects (e : Env) : Type 0 where
  pub taken : e.Scope → Bytes
  pub keep : e.Req → Bytes → e.Scope → e.Scope
  pub close : e.Req → e.Scope → e.Scope
  pub on_chunk :
      (m : e.Req) (piece : Bytes) (req : Request e.Buf) (scope : e.Scope)
      → e.response_chunk m piece req scope ≡ ret (some m, req, keep m piece scope)
  pub on_end :
      (m : e.Req) (req : Request e.Buf) (scope : e.Scope)
      → e.response_end m req scope ≡ ret (req, close m scope)
  pub taken-keep :
      (m : e.Req) (piece : Bytes) (scope : e.Scope)
      → taken (keep m piece scope) ≡ taken scope ++ piece
  pub taken-close : (m : e.Req) (scope : e.Scope) → taken (close m scope) ≡ taken scope

module _ (e : Env) where
  open e use {Buf, Req, Scope, ops}
  open ops use {contents, write}

  -- A round for each arrival, which the transport appends to the input, until the body is whole.
  unfoldable pub arrive :
      List Bytes → BodyProgress → Req → Buf → Request Buf → Scope → Outcome (Round e)
  unfolding again
  arrive [] p m inp req scope = ret (goes_on (some m) p inp req scope)
  arrive (d ∷ ds) p m inp req scope = do
    r ← round e p (length (contents (write inp d))) m (write inp d) (resumed e req) scope
    again e (arrive ds) r

  pub arrive_step :
      (d : Bytes) (ds : List Bytes) (p : BodyProgress) (m : Req) (inp : Buf) (req : Request Buf)
      (scope : Scope) (r : Round e)
      → round e p (length (contents (write inp d))) m (write inp d) (resumed e req) scope ≡ ret r
      → arrive (d ∷ ds) p m inp req scope ≡ again e (arrive ds) r
  unfolding arrive
  arrive_step d ds p m inp req scope r h = ap (λ o. o >>= again e (arrive ds)) h

module _ (e : Env) (laws : BufferLaws e.ops) (c : Collects e) where
  open e use {Buf, Req, Scope, ops}
  open ops use {contents, write, consume}
  open laws use {contents-write, contents-consume}

  -- A round whose input is a part of what is left.
  round_part :
      (hint left end : ℕ) (d : Bytes) (m : Req) (inp : Buf) (req : Request Buf) (scope : Scope)
      → contents inp ≡ d
      → length d < left
      → round e (progressive_fixed hint left) end m inp req scope
        ≡ ret (
            goes_on
              (some m)
              (progressive_fixed hint (left - length d))
              (consume inp (length d))
              req
              (c.keep m d scope))
  unfolding round read_progressive_fixed receive_chunk end_response
  round_part hint left end d m inp req scope holds less =
      let more : (left - length d == 0) ≡ false = ground arith in
      let whole = slice_middle 0 (length d) [] d [] refl (omega arith) in
      rw (
        holds,
        min_left (length d) left (omega arith),
        rw append-nil at whole,
        c.on_chunk m d req scope,
        more,
      )

  -- A round whose input holds what is left.
  round_rest :
      (hint end : ℕ) (d rest : Bytes) (m : Req) (inp : Buf) (req : Request Buf) (scope : Scope)
      → contents inp ≡ d ++ rest
      → round e (progressive_fixed hint (length d)) end m inp req scope
        ≡ ret (finished (consume inp (length d)) req (c.close m (c.keep m d scope)))
  unfolding round read_progressive_fixed receive_chunk end_response
  round_rest hint end d rest m inp req scope holds =
      let nothing : (length d - length d == 0) ≡ true = ground arith in
      let first = slice_middle 0 (length d) [] d rest refl (omega arith) in
      rw (
        holds,
        min_right (length (d ++ rest)) (length d) (omega (arith, length-append d rest)),
        first,
        c.on_chunk m d req scope,
        nothing,
        c.on_end m req (c.keep m d scope),
      )

  -- A response of a declared length that is handed over in parts reaches the handler whole: from an
  -- empty input on, over any arrivals that end with one that completes the body, however they cut it, a
  -- handler that keeps what it takes has taken exactly the body, in order, when the response ends, and
  -- what stands behind the body is left in the input.
  pub arrive-progressive_fixed :
      (ds : List Bytes) (hint : ℕ) (last rest : Bytes) (m : Req) (inp : Buf) (req : Request Buf)
      (scope : Scope)
      → contents inp ≡ []
      → 0 < length last
      → (inp' : Buf) × (scope' : Scope) × (arrive e
            (ds ++ ((last ++ rest) ∷ []))
            (progressive_fixed hint (length (concat ds) + length last))
            m
            inp
            (resumed e req)
            scope
          ≡ ret (finished inp' (resumed e req) scope'))
        × (c.taken scope' ≡ c.taken scope ++ (concat ds ++ last))
        × (contents inp' ≡ rest)
  unfolding arrive again
  arrive-progressive_fixed [] hint last rest m inp req scope empty more =
      let all_left : 0 + length last ≡ length last = omega arith in
      let holds : contents (write inp (last ++ rest)) ≡ last ++ rest =
        rw (contents-write, empty) refl in
      (
        consume (write inp (last ++ rest)) (length last),
        c.close m (c.keep m last scope),
        ap
              (λ n.
                arrive e ((last ++ rest) ∷ []) (progressive_fixed hint n) m inp (resumed e req)
                  scope)
              all_left
            ∙ arrive_step e (last ++ rest) [] (progressive_fixed hint (length last)) m inp
                (resumed e req) scope _
                (round_rest hint (length (contents (write inp (last ++ rest)))) last rest m
                  (write inp (last ++ rest)) (resumed e req) scope holds),
        c.taken-close m (c.keep m last scope) ∙ c.taken-keep m last scope,
        contents-consume (write inp (last ++ rest)) (length last)
              (rw holds (omega (arith, length-append last rest)))
            ∙ rw holds (drop_prefix (length last) last rest refl),
      )
  arrive-progressive_fixed (d ∷ ds) hint last rest m inp req scope empty more =
      let size = length-append d (concat ds) in
      let holds : contents (write inp d) ≡ d = rw (contents-write, empty) refl in
      let used : contents (consume (write inp d) (length d)) ≡ [] =
        contents-consume (write inp d) (length d) (rw holds (omega arith))
        ∙ rw holds (rw append-nil at (drop_prefix (length d) d [] refl)) in
      let left : length (d ++ concat ds) + length last - length d
          ≡ length (concat ds) + length last =
        omega arith in
      let (inp', scope', runs, took, holds') =
        arrive-progressive_fixed ds hint last rest m (consume (write inp d) (length d)) req
          (c.keep m d scope) used more in
      (
        inp',
        scope',
        arrive_step e d (ds ++ ((last ++ rest) ∷ []))
              (progressive_fixed hint (length (d ++ concat ds) + length last)) m inp (resumed e req)
              scope _
              (round_part hint (length (d ++ concat ds) + length last)
                (length (contents (write inp d))) d m (write inp d) (resumed e req) scope holds
                (omega arith))
            ∙ rw left runs,
        took ∙ rw (c.taken-keep m d scope) (simp append_assoc),
        holds',
      )
