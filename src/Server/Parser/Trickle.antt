-- ===== src/Server/Parser/Trickle.antt =====
-- A body of declared length that is handed over in parts, over any sequence of arrivals.
use rotor_http.Prelude.{
  min_left, min_right, ℕ, ◌+◌, ◌-◌, ◌<◌, ◌≡◌, refl, ap, ◌∙◌, true, false, List, [], ◌∷◌, ◌++◌,
  append_assoc, append-nil, arith, Bytes, length, length-append, drop_prefix, ◌==◌, Option, none,
  some, Outcome, ret, ◌>>=◌, slice_middle,
}
use rotor_http.Buffer.{BufferLaws}
use rotor_http.Message.Payload.Dechunk.{concat}
use rotor_http.Message.{Message}
use rotor_http.Server.Parser.Reading.{
  Round, goes_on, round, read_progressive_fixed, receive_chunk, and_then,
}
use rotor_http.Server.Parser.{BodyProgress, progressive_fixed}
use rotor_http.Server.Protocol.{Env}

-- A handler that takes every part and keeps what it took, in `taken`.
pub record Collects (e : Env) : Type 0 where
  pub taken : e.Scope → Bytes
  pub keep : e.Machine → Bytes → e.Scope → e.Scope
  pub close : e.Machine → e.Scope → e.Scope
  pub on_chunk :
      (m : e.Machine) (piece : Bytes) (resp : Message e.Buf) (scope : e.Scope)
      → e.request_chunk m piece resp scope ≡ ret (some m, resp, keep m piece scope)
  pub on_end :
      (m : e.Machine) (resp : Message e.Buf) (scope : e.Scope)
      → e.request_end m resp scope ≡ ret (none, resp, close m scope)
  pub taken-keep :
      (m : e.Machine) (piece : Bytes) (scope : e.Scope)
      → taken (keep m piece scope) ≡ taken scope ++ piece
  pub taken-close : (m : e.Machine) (scope : e.Scope) → taken (close m scope) ≡ taken scope

module _ (e : Env) where
  open e use {Buf, Machine, Seed, Scope, ops}
  open ops use {contents, write}

  -- What a round is followed by, with the arrivals that are left.
  onward :
      (BodyProgress → Option Machine → Buf → Message Buf → Scope → Outcome (Round e))
      → Round e
      → Outcome (Round e)
  onward more (goes_on m (some p) inp resp scope) = more p m inp resp scope
  onward more r = ret r

  -- A round for each arrival, which the transport appends to the input, until the body is whole.
  pub trickle :
      List Bytes
      → Seed
      → BodyProgress
      → Option Machine
      → Buf
      → Message Buf
      → Scope
      → Outcome (Round e)
  unfolding onward
  trickle [] seed p machine inp resp scope = ret (goes_on machine (some p) inp resp scope)
  trickle (d ∷ ds) seed p machine inp resp scope = do
    r ← round e p (length (contents (write inp d))) machine seed (write inp d) resp scope
    onward (trickle ds seed) r

  trickle_step :
      (d : Bytes) (ds : List Bytes) (seed : Seed) (p : BodyProgress) (machine : Option Machine)
      (inp : Buf) (resp : Message Buf) (scope : Scope) (r : Round e)
      → round e p (length (contents (write inp d))) machine seed (write inp d) resp scope ≡ ret r
      → trickle (d ∷ ds) seed p machine inp resp scope ≡ onward (trickle ds seed) r
  unfolding trickle
  trickle_step d ds seed p machine inp resp scope r h = ap (λ o. o >>= onward (trickle ds seed)) h

module _ (e : Env) (laws : BufferLaws e.ops) (c : Collects e) where
  open e use {Buf, Machine, Seed, Scope, ops}
  open ops use {contents, write, consume}
  open laws use {contents-write, contents-consume}

  -- A round whose input is a part of what is left.
  round_part :
      (hint left end : ℕ) (d : Bytes) (m : Machine) (seed : Seed) (inp : Buf) (resp : Message Buf)
      (scope : Scope)
      → contents inp ≡ d
      → length d < left
      → round e (progressive_fixed hint left) end (some m) seed inp resp scope
        ≡ ret (
            goes_on
              (some m)
              (some (progressive_fixed hint (left - length d)))
              (consume inp (length d))
              resp
              (c.keep m d scope))
  unfolding round read_progressive_fixed receive_chunk and_then
  round_part hint left end d m seed inp resp scope holds less =
      let more : (left - length d == 0) ≡ false = ground arith in
      let whole = slice_middle 0 (length d) [] d [] refl (omega arith) in
      rw (
        holds,
        min_left (length d) left (omega arith),
        rw append-nil at whole,
        c.on_chunk m d resp scope,
        more,
      )

  -- A round whose input holds what is left.
  round_rest :
      (hint end : ℕ) (d rest : Bytes) (m : Machine) (seed : Seed) (inp : Buf) (resp : Message Buf)
      (scope : Scope)
      → contents inp ≡ d ++ rest
      → round e (progressive_fixed hint (length d)) end (some m) seed inp resp scope
        ≡ ret (goes_on none none (consume inp (length d)) resp (c.close m (c.keep m d scope)))
  unfolding round read_progressive_fixed receive_chunk and_then
  round_rest hint end d rest m seed inp resp scope holds =
      let nothing : (length d - length d == 0) ≡ true = ground arith in
      let first = slice_middle 0 (length d) [] d rest refl (omega arith) in
      rw (
        holds,
        min_right (length (d ++ rest)) (length d) (omega (arith, length-append d rest)),
        first,
        c.on_chunk m d resp scope,
        nothing,
        c.on_end m resp (c.keep m d scope),
      )

  -- A body of a declared length that is handed over in parts reaches the handler whole: over any
  -- arrivals that end with one that completes the body, however they cut it, a handler that keeps
  -- what it takes has taken exactly the body, in order, when the request ends, and what stands
  -- behind the body is left in the input.
  pub trickle-progressive_fixed :
      (ds : List Bytes) (hint : ℕ) (last rest : Bytes) (m : Machine) (seed : Seed) (inp : Buf)
      (resp : Message Buf) (scope : Scope)
      → contents inp ≡ []
      → 0 < length last
      → (inp' : Buf) × (scope' : Scope) × (trickle e
            (ds ++ ((last ++ rest) ∷ []))
            seed
            (progressive_fixed hint (length (concat ds) + length last))
            (some m)
            inp
            resp
            scope
          ≡ ret (goes_on none none inp' resp scope'))
        × (c.taken scope' ≡ c.taken scope ++ (concat ds ++ last))
        × (contents inp' ≡ rest)
  unfolding trickle onward
  trickle-progressive_fixed [] hint last rest m seed inp resp scope empty more =
      let all_left : 0 + length last ≡ length last = omega arith in
      let holds : contents (write inp (last ++ rest)) ≡ last ++ rest =
        rw (contents-write, empty) refl in
      (
        consume (write inp (last ++ rest)) (length last),
        c.close m (c.keep m last scope),
        ap
              (λ n.
                trickle e ((last ++ rest) ∷ []) seed (progressive_fixed hint n) (some m) inp resp
                  scope)
              all_left
            ∙ trickle_step e (last ++ rest) [] seed (progressive_fixed hint (length last)) (some m)
                inp resp scope _
                (round_rest hint (length (contents (write inp (last ++ rest)))) last rest m seed
                  (write inp (last ++ rest)) resp scope holds),
        c.taken-close m (c.keep m last scope) ∙ c.taken-keep m last scope,
        contents-consume (write inp (last ++ rest)) (length last)
              (rw holds (omega (arith, length-append last rest)))
            ∙ rw holds (drop_prefix (length last) last rest refl),
      )
  trickle-progressive_fixed (d ∷ ds) hint last rest m seed inp resp scope empty more =
      let size = length-append d (concat ds) in
      let holds : contents (write inp d) ≡ d = rw (contents-write, empty) refl in
      let used : contents (consume (write inp d) (length d)) ≡ [] =
        contents-consume (write inp d) (length d) (rw holds (omega arith))
        ∙ rw holds (rw append-nil at (drop_prefix (length d) d [] refl)) in
      let left : length (d ++ concat ds) + length last - length d
          ≡ length (concat ds) + length last =
        omega arith in
      let (inp', scope', runs, took, holds') =
        trickle-progressive_fixed ds hint last rest m seed (consume (write inp d) (length d)) resp
          (c.keep m d scope) used more in
      (
        inp',
        scope',
        trickle_step e d (ds ++ ((last ++ rest) ∷ [])) seed
              (progressive_fixed hint (length (d ++ concat ds) + length last)) (some m) inp resp
              scope _
              (round_part hint (length (d ++ concat ds) + length last)
                (length (contents (write inp d))) d m seed (write inp d) resp scope holds
                (omega arith))
            ∙ rw left runs,
        took ∙ rw (c.taken-keep m d scope) (simp append_assoc),
        holds',
      )
