-- ===== src/Server/Parser/Demand.antt =====
-- How much input a connection asks for while it reads a body.
use rotor_http.Prelude.{
  ℕ, zero, suc, ◌+◌, ◌^◌, ◌≤◌, ◌<◌, ◌≡◌, refl, false, ◌==◌, arith, min, ret, add_u64_fits, crlf,
}
use rotor_http.Server.Parser.{
  BodyProgress, buffer_fixed, buffer_chunked, progressive_fixed, progressive_chunked,
  body_expectation, consumed, max_chunk_head,
}
use rotor_http.Stream.{Expectation, bytes, delimiter, flush, sleep}

-- What is buffered, and what has to be before the handler is called, is at most `l`: the declared
-- length of a body that is buffered, the limit of one in chunks, the hint of one that is handed over
-- in parts.
abbrev pub Bounded : ℕ → BodyProgress → Type 0
Bounded l (buffer_fixed x) = x ≤ l
Bounded l (buffer_chunked limit off left) = off + left ≤ l
Bounded l (progressive_fixed hint left) = hint ≤ l
Bounded l (progressive_chunked hint off left) = (hint ≤ l) × (off ≤ l) × (off + left < 2 ^ 64)

-- The expectation is answered from a buffer of at most `n` bytes.
abbrev pub AsksAtMost : ℕ → Expectation → Type 0
AsksAtMost n (bytes k) = k ≤ n
AsksAtMost n (delimiter off d limit) = limit ≤ n
AsksAtMost n (flush k) = Unit
AsksAtMost n sleep = Unit

consumed-le : (off : ℕ) → consumed off ≤ off + 2
unfolding consumed
consumed-le off = ground arith

more_left : (k : ℕ) → (suc k == 0) ≡ false
more_left k = ground arith

min-le : (a b : ℕ) → min a b ≤ a
min-le a b = ground arith

-- While a body is read, the next expectation is always formed: if the sizes that it is formed from
-- are bounded by `l`, the rest of a chunk that is handed over in parts ends within a u64, and `l` with a
-- line end is a u64, it asks for no more than `l` and 130 bytes, which are a line end and a size line.
pub body_expectation-AsksAtMost :
    (l : ℕ) (p : BodyProgress)
    → l + 2 < 2 ^ 64
    → Bounded l p
    → (exp : Expectation) × (body_expectation p ≡ ret exp) × AsksAtMost (l + 130) exp
unfolding body_expectation
body_expectation-AsksAtMost l (buffer_fixed x) word h = (bytes x, refl, omega arith)
body_expectation-AsksAtMost l (buffer_chunked limit off zero) word h = (
  delimiter (consumed off) crlf (consumed off + max_chunk_head),
  refl,
  omega (arith, consumed-le off),
)
body_expectation-AsksAtMost l (buffer_chunked limit off (suc k)) word h = (
  bytes (off + suc k + 2),
  rw (
    more_left k,
    add_u64_fits off (suc k) (omega arith),
    add_u64_fits (off + suc k) 2 (omega arith),
  ),
  omega arith,
)
body_expectation-AsksAtMost l (progressive_fixed hint left) word h =
    (bytes (min hint left), refl, omega (arith, min-le hint left))
body_expectation-AsksAtMost l (progressive_chunked hint off zero) word h =
    (delimiter off crlf (off + max_chunk_head), refl, omega arith)
body_expectation-AsksAtMost l (progressive_chunked hint off (suc k)) word h =
    let least = min-le hint (off + suc k) in
    (
      bytes (min hint (off + suc k) + 2),
      rw (
        more_left k,
        add_u64_fits off (suc k) h.2,
        add_u64_fits (min hint (off + suc k)) 2 (omega arith),
      ),
      omega arith,
    )
