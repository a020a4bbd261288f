-- ===== src/Server/Parser/Overrun.antt =====
-- server/parser.rs: a chunk that is handed over in parts and is larger than the hint.
use rotor_http.Prelude.{
  min_left, ℕ, suc, ◌+◌, ◌-◌, ◌^◌, ◌≤◌, ◌<◌, ◌≡◌, ◌∙◌, false, lt→ltb, ◌++◌, arith, Bytes, crlf,
  length, length-append, Option, ret, panic, add_u64_fits, sub_u64, sub_u64_fits, ◌==◌,
}
use rotor_http.Buffer.{BufferLaws}
use rotor_http.Message.{Message}
use rotor_http.Stream.{bytes, Delivery}
use rotor_http.Server.Parser.Buffered.{feed_step}
use rotor_http.Server.Parser.Decode.{feed}
use rotor_http.Server.Parser.Reading.{progressive_end, read_progressive_chunk, round}
use rotor_http.Server.Parser.{progressive_chunked, body_expectation}
use rotor_http.Server.Protocol.{Env}

apart : (a b : ℕ) → b < a → (a == b) ≡ false
apart a b h = ground arith

sub_u64-overflow : (a b : ℕ) → a < b → sub_u64 a b ≡ panic
unfolding sub_u64
sub_u64-overflow a b h = rw (lt→ltb a b h)

expectation_beyond :
    (hint off k : ℕ)
    → hint < off + suc k
    → off + suc k < 2 ^ 64
    → hint + 2 < 2 ^ 64
    → body_expectation (progressive_chunked hint off (suc k)) ≡ ret (bytes (hint + 2))
unfolding body_expectation
expectation_beyond hint off k over word small =
    let more : (suc k == 0) ≡ false = ground arith in
    rw (
      more,
      add_u64_fits off (suc k) word,
      min_left hint (off + suc k) (omega arith),
      add_u64_fits hint 2 small,
    )

module _ (e : Env) (laws : BufferLaws e.ops) (d : Delivery) where
  open e use {Buf, Machine, Seed, Scope, ops}
  open ops use {contents}

  round_overrun :
      (hint off k : ℕ) (machine : Option Machine) (seed : Seed) (inp : Buf) (resp : Message Buf)
      (scope : Scope)
      → hint < off + suc k
      → off + suc k < 2 ^ 64
      → off + suc k < length (contents inp)
      → round e (progressive_chunked hint off (suc k)) (hint + 2) machine seed inp resp scope
        ≡ panic
  unfolding round read_progressive_chunk progressive_end
  round_overrun hint off k machine seed inp resp scope over word long =
      let last : hint + 2 - 2 ≡ hint = omega arith in
      rw (
        add_u64_fits off (suc k) word,
        sub_u64_fits (hint + 2) 2 (omega arith),
        last,
        apart (off + suc k) hint over,
        sub_u64_fits (length (contents inp)) off (omega arith),
        sub_u64-overflow (suc k) (length (contents inp) - off) (omega arith),
      )

  -- A chunk that is handed over in parts, and that goes beyond the hint with what waits for the
  -- handler, must not have arrived whole: if the input holds its data and its line end, and the hint
  -- with a line end and the end of the chunk are u64 numbers, the round panics, with any handler, since
  -- what is left of the chunk underflows.
  pub feed_overrun :
      (fuel hint k : ℕ) (got payload rest : Bytes) (machine : Option Machine) (seed : Seed)
      (inp : Buf) (resp : Message Buf) (scope : Scope)
      → length payload ≡ suc k
      → hint < length got + suc k
      → length got + suc k < 2 ^ 64
      → hint + 2 < 2 ^ 64
      → contents inp ≡ got ++ (payload ++ (crlf ++ rest))
      → feed e d
          (suc fuel)
          seed
          (progressive_chunked hint (length got) (suc k))
          machine
          inp
          resp
          scope
        ≡ panic
  feed_overrun fuel hint k got payload rest machine seed inp resp scope size over word small holds =
      let long : length got + suc k + 2 ≤ length (contents inp) = rw holds (
        omega (
          arith,
          length-append got (payload ++ (crlf ++ rest)),
          length-append payload (crlf ++ rest),
          length-append crlf rest,
        )) in
      feed_step e laws d fuel seed (progressive_chunked hint (length got) (suc k)) machine inp resp
        scope _ _ (expectation_beyond hint (length got) k over word small)
        (d.deliver_bytes (hint + 2) (contents inp) (omega arith))
      ∙ rw (round_overrun hint (length got) k machine seed inp resp scope over word (omega arith))
