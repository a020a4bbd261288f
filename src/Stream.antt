-- ===== src/Stream.antt =====
-- What both parsers take from rotor_stream and httparse besides the buffer: the transport's
-- expectations, with how it answers them, and the sizes of chunks; and a stream of chunks.
use rotor_http.Prelude.{
  ℕ, zero, suc, ◌+◌, ◌≤◌, ◌<◌, ◌≡◌, ◌≢◌, refl, sym, ap, ◌∙◌, List, [], ◌∷◌, ◌++◌, append_assoc,
  arith, Bytes, Outcome, ret, panic, crlf, All, length, length-append, drop, take_prefix,
  drop_prefix, Option, some,
}
use rotor_http.Buffer.{BufferOps, BufferLaws}

-- What the transport is asked to wait for: this many bytes, a delimiter from an offset on within a
-- limit, an empty output buffer, or nothing.
pub data Expectation : Type 0 where
  bytes : ℕ → Expectation
  delimiter : ℕ → Bytes → ℕ → Expectation
  flush : ℕ → Expectation
  sleep : Expectation

-- The answers of `parse_chunk_size`.
pub data ChunkSize : Type 0 where
  complete : ℕ → ℕ → ChunkSize
  partial : ChunkSize
  invalid : ChunkSize

-- The size of the chunk that a size line announces.
abbrev pub size_of : ChunkSize → ℕ
size_of (ChunkSize.complete i size) = size
size_of _ = 0

abbrev pub announced : (Bytes → ChunkSize) → Outcome Bytes → ℕ
announced parse (ret line) = size_of (parse line)
announced parse panic = 0

-- Where a size line starts behind so many buffered bytes: behind the line end that follows them.
abbrev pub line_at : ℕ → ℕ
line_at zero = 0
line_at (suc k) = suc k + 2

-- A chunk on the wire: its size line and its data.
pub record Piece : Type 0 where
  pub line : Bytes
  pub payload : Bytes

-- All chunks, then the last size line and what follows it.
abbrev pub stream : List Piece → Bytes → Bytes → Bytes
stream [] last rest = last ++ (crlf ++ rest)
stream (p ∷ ps) last rest = p.line ++ (crlf ++ (p.payload ++ (crlf ++ stream ps last rest)))

abbrev pub payloads : List Piece → Bytes
payloads [] = []
payloads (p ∷ ps) = p.payload ++ payloads ps

-- `MAX_CHUNK_HEAD`, of the server and of the client.
abbrev pub max_line : ℕ
max_line = 128

-- A size line: no CR, short enough for the parser's limit, and read by httparse as this size.
pub record SizeLine (read : Bytes → ChunkSize) (line : Bytes) (size : ℕ) : Type 0 where
  pub no_cr : All (λ c. c ≢ 13) line
  pub short : length line + 2 ≤ max_line
  pub index : ℕ
  pub reads : read (line ++ crlf) ≡ ChunkSize.complete index size

pub record IsChunk (read : Bytes → ChunkSize) (p : Piece) : Type 0 where
  pub size_line : SizeLine read p.line (length p.payload)
  pub not_empty : 0 < length p.payload

-- How the transport answers an expectation (rotor_stream): a number of bytes when they are there,
-- and the distance from the offset to the first delimiter behind it.
pub record Delivery : Type 0 where
  pub deliver : Expectation → Bytes → Option ℕ
  pub deliver_bytes : (n : ℕ) (c : Bytes) → n ≤ length c → deliver (bytes n) c ≡ some n
  pub deliver_line :
      (before line rest : Bytes) (off limit : ℕ)
      → off ≡ length before
      → All (λ c. c ≢ 13) line
      → off + length line + 2 ≤ limit
      → deliver (delimiter off crlf limit) (before ++ (line ++ (crlf ++ rest))) ≡ some (length line)

-- The line end that stands between the buffered bytes and the next size line.
abbrev pub separator : Bytes → Bytes
separator [] = []
separator (c ∷ s) = crlf

-- The rounds that a stream takes: two for a chunk, and the last size line.
abbrev pub rounds : List Piece → ℕ
rounds [] = 1
rounds (p ∷ ps) = suc (suc (rounds ps))

pub pos_suc : (n : ℕ) → 0 < n → (k : ℕ) × (n ≡ suc k)
pos_suc zero h = absurd (omega arith)
pos_suc (suc k) h = (k, refl)

pub separator_pos : (s : Bytes) → 0 < length s → separator s ≡ crlf
separator_pos [] h = absurd (omega arith)
separator_pos (c ∷ s) h = refl

module _ {Buf : Type 0} (ops : BufferOps Buf) (laws : BufferLaws ops) where
  open ops use {contents, remove_range}
  open laws use {contents-remove_range}

  -- A buffer that holds three pieces, without the middle one.
  pub contents_without :
      (b : Buf) (x y z : Bytes) (lo hi : ℕ)
      → contents b ≡ x ++ (y ++ z)
      → lo ≡ length x
      → hi ≡ length x + length y
      → contents (remove_range b lo hi) ≡ x ++ z
  contents_without b x y z lo hi c p q =
      let size : length (contents b) ≡ length x + (length y + length z) =
        rw c (omega (arith, length-append x (y ++ z), length-append y z)) in
      contents-remove_range b lo hi (omega arith) (omega arith)
      ∙ rw c (
          ap (λ t. t ++ drop hi (x ++ (y ++ z))) (take_prefix lo x (y ++ z) p)
          ∙ ap (λ t. x ++ t)
              (ap (drop hi) (sym (append_assoc x y z))
                ∙ drop_prefix hi (x ++ y) z (omega (arith, length-append x y))))
