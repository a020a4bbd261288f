-- ===== src/Server/Parser/Decode.antt =====
-- A chunked body that is buffered: the rounds of `bytes_read` on a stream of chunks.
use rotor_http.Prelude.{
  ℕ, zero, suc, ◌≡◌, refl, [], ◌∷◌, ◌++◌, arith, Bytes, crlf, length, length-append, Option, none,
  some, Outcome, ret, ◌>>=◌,
}
use rotor_http.Message.{Message}
pub use rotor_http.Stream.{Piece, stream, payloads, SizeLine, IsChunk, Delivery, separator}
use rotor_http.Server.Parser.Reading.{Round, goes_on, refused, round}
use rotor_http.Server.Parser.{BodyProgress, body_expectation, consumed}
use rotor_http.Server.Protocol.{Env}

module _ (e : Env) (d : Delivery) where
  open e use {Buf, Machine, Seed, Scope, Time, ops}
  open ops use {contents}

  -- What a round is followed by: another one while the body is not whole and the transport has
  -- what is asked for.
  unfoldable pub again :
      (BodyProgress → Option Machine → Buf → Message Buf → Scope → Outcome (Round e))
      → Round e
      → Outcome (Round e)
  again more (goes_on m (some p) inp resp scope) = more p m inp resp scope
  again more (goes_on m none inp resp scope) = ret (goes_on m none inp resp scope)
  again more (refused inp resp scope) = ret (refused inp resp scope)

  unfoldable pub delivered :
      (Round e → Outcome (Round e))
      → BodyProgress
      → Option Machine
      → Seed
      → Buf
      → Message Buf
      → Scope
      → Option ℕ
      → Outcome (Round e)
  delivered more p machine seed inp resp scope none = ret (goes_on machine (some p) inp resp scope)
  delivered more p machine seed inp resp scope (some end) = do
    r ← round e p end machine seed inp resp scope
    more r

  unfoldable pub feed :
      ℕ → Seed → BodyProgress → Option Machine → Buf → Message Buf → Scope → Outcome (Round e)
  feed zero seed p machine inp resp scope = ret (goes_on machine (some p) inp resp scope)
  feed (suc fuel) seed p machine inp resp scope = do
    exp ← body_expectation p
    delivered (again (feed fuel seed)) p machine seed inp resp scope (d.deliver exp (contents inp))

pub consumed-length : (got : Bytes) → consumed (length got) ≡ length (got ++ separator got)
unfolding consumed
consumed-length [] = refl
consumed-length (c ∷ s) = ground (arith, length-append s crlf)
