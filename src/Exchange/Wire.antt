-- ===== src/Exchange/Wire.antt =====
-- The chunks that a message writes are a stream of chunks for the parsers.
use mathlib.Core.Logic.{dif_pos, dif_neg}
use mathlib.Core.WellFounded.{Acc}
use native.Mathlib.Bridge.{le_prop}
use native.Mathlib.Decide.{dec_lt}
use native.Mathlib.Nat.{pow-suc}
use rotor_http.Prelude.{
  ℕ, zero, suc, ◌+◌, ◌/◌, ◌%◌, ◌^◌, ◌≤◌, ◌<◌, ◌≡◌, refl, List, [], ◌∷◌, ◌++◌, append_assoc, arith,
  Bytes, codes, crlf, All, length, length-append, if◌then◌else◌, ltb, ltb→lt, ltb→le, Bool-cases,
  inl, inr, ◌==◌,
}
use rotor_http.Message.Payload.Dechunk.{chunks, concat, last_chunk, read_radix-no_cr}
use rotor_http.Std.Radix.RoundTrip.{read_radix-to_radix}
use rotor_http.Std.Radix.{to_hex, to_radix, emit, digit, lt_wf, div_lt, sixteen}
use rotor_http.Stream.{ChunkSize, Piece, stream, payloads, SizeLine, IsChunk}

div_lt_pow : (n k : ℕ) → n < 16 ^ suc k → n / 16 < 16 ^ k
div_lt_pow n k h = omega (arith, pow-suc 16 k)

-- A number below a power of 16 has no more digits than the exponent says.
length-emit :
    (k n : ℕ) (w : Acc ◌<◌ n) (out : Bytes)
    → n < 16 ^ k
    → length (emit 16 sixteen n w out) ≤ k + length out
unfolding emit
length-emit zero n (Acc.intro _ smaller) out h = elim (dec_lt 0 n) [
  | no none_left ↦ rw (dif_neg _ none_left) (omega arith)
  | yes pos ↦ absurd (omega arith)
]
length-emit (suc k) n (Acc.intro _ smaller) out h = elim (dec_lt 0 n) [
  | no none_left ↦ rw (dif_neg _ none_left) (omega arith)
  | yes pos ↦ rw (dif_pos _ le_prop pos) (
      omega (
        arith,
        length-emit k (n / 16) (smaller (n / 16) (div_lt 16 n sixteen pos)) (digit (n % 16) ∷ out)
            (div_lt_pow n k h),
      ))
]

length-to_hex : (n : ℕ) → n < 2 ^ 64 → length (to_hex n) ≤ 16
unfolding to_radix
length-to_hex n h = elim (Bool-cases (n == 0)) [
  | inl none_left ↦ rw none_left (omega arith)
  | inr more ↦ rw more (length-emit 16 n (lt_wf.apply n) [] h)
]

-- httparse reads the digits of a number, as they are printed, as this number.
pub record ReadsHex (read : Bytes → ChunkSize) : Type 0 where
  pub index : ℕ → ℕ
  pub reads : (n : ℕ) → n < 2 ^ 64 → read (to_hex n ++ crlf) ≡ ChunkSize.complete (index n) n

-- The chunks of the pieces that are not empty.
abbrev pub pieces : List Bytes → List Piece
pieces [] = []
pieces (d ∷ ds) =
    let rest = pieces ds in
    if ltb 0 (length d) then record { line = to_hex (length d); payload = d } ∷ rest else rest

pub payloads-pieces : (ds : List Bytes) → payloads (pieces ds) ≡ concat ds
payloads-pieces [] = refl
payloads-pieces (d ∷ ds) = elim (Bool-cases (ltb 0 (length d))) [
  | inl more ↦ rw (more, payloads-pieces ds) refl
  | inr empty ↦ rw (empty, payloads-pieces ds) (no_data d (ltb→le 0 (length d) empty))
]
  where
    no_data : (d : Bytes) → length d ≤ 0 → concat ds ≡ d ++ concat ds
    no_data [] h = refl
    no_data (c ∷ d) h = absurd (omega arith)

-- What a chunked body puts on the wire is a stream of its pieces, with the last line end behind it.
pub chunks-stream :
    (ds : List Bytes) (end : Bytes)
    → (chunks ds ++ last_chunk) ++ end ≡ stream (pieces ds) (codes "0") (crlf ++ end)
chunks-stream [] end = refl
chunks-stream (d ∷ ds) end = elim (Bool-cases (ltb 0 (length d))) [
  | inl more ↦ rw (more, ← (chunks-stream ds end)) (simp append_assoc)
  | inr empty ↦ rw empty (chunks-stream ds end)
]

to_hex_zero : to_hex 0 ≡ codes "0"
unfolding to_radix
to_hex_zero = refl

module _ (read : Bytes → ChunkSize) (hex : ReadsHex read) where
  to_hex-SizeLine : (n : ℕ) → n < 2 ^ 64 → SizeLine read (to_hex n) n
  to_hex-SizeLine n h = record {
    no_cr = read_radix-no_cr (to_hex n) 0 n (read_radix-to_radix 16 sixteen (omega arith) n);
    short = omega (arith, length-to_hex n h);
    index = hex.index n;
    reads = hex.reads n h;
  }

  pub last-SizeLine : SizeLine read (codes "0") 0
  last-SizeLine = rw to_hex_zero at (to_hex-SizeLine 0 (omega arith))

  pub pieces-IsChunk :
      (ds : List Bytes) → length (concat ds) < 2 ^ 64 → All (IsChunk read) (pieces ds)
  pieces-IsChunk [] h = tt
  pieces-IsChunk (d ∷ ds) h =
      let size = length-append d (concat ds) in
      let rest = pieces-IsChunk ds (omega arith) in
      elim (Bool-cases (ltb 0 (length d))) [
        | inr empty ↦ rw empty rest
        | inl more ↦ rw more (
          record {
            size_line = to_hex-SizeLine (length d) (omega arith);
            not_empty = ltb→lt 0 (length d) more;
          },
          rest,
        )
      ]
