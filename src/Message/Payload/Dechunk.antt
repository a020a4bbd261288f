-- ===== src/Message/Payload/Dechunk.antt =====
-- The chunked transfer coding of RFC 7230, read by an independent decoder.
use rotor_http.Prelude.{
  ℕ, zero, suc, ◌+◌, ◌*◌, ◌<◌, ◌≡◌, ◌≢◌, refl, ap, ◌∙◌, inl, inr, true, false, ◌&&◌, List, [], ◌∷◌,
  ◌++◌, append_assoc, arith, Bytes, codes, crlf, All, length, take-append-length,
  drop-append-length, take, drop, Option, some, none, ltb, ◌==◌, if◌then◌else◌, Bool-cases, ltb→lt,
}
use rotor_http.Std.Radix.{to_hex, read_radix, to_digit, sixteen}
use rotor_http.Std.Radix.RoundTrip.{read_radix-to_radix, read_radix-cons, to_radix-ne-nil}

-- The line up to the first CR, and what stands behind its LF.
pub cut_line : Bytes → Option (Bytes × Bytes)
cut_line [] = none
cut_line (c ∷ s) = elim (c == 13) [
  | true ↦ elim s [ [] ↦ none | x ∷ rest ↦ if x == 10 then some ([], rest) else none ]
  | false ↦ elim (cut_line s) [ none ↦ none | some (line, rest) ↦ some (c ∷ line, rest) ]
]

-- A size line: hexadecimal digits.
size_of : Option (Bytes × Bytes) → Option (ℕ × Bytes)
size_of none = none
size_of (some ([], rest)) = none
size_of (some (c ∷ line, rest)) = elim (read_radix 16 (c ∷ line) 0) [
  | none ↦ none
  | some n ↦ some (n, rest)
]

pub read_size : Bytes → Option (ℕ × Bytes)
read_size s = size_of (cut_line s)

-- CR LF at the front.
pub skip_crlf : Bytes → Option Bytes
skip_crlf (a ∷ b ∷ rest) = if a == 13 && b == 10 then some rest else none
skip_crlf _ = none

-- The last chunk's end, and the data of a chunk put before that of the others.
no_data : Option Bytes → Option (Bytes × Bytes)
no_data none = none
no_data (some rest) = some ([], rest)

prepend : Bytes → Option (Bytes × Bytes) → Option (Bytes × Bytes)
prepend d none = none
prepend d (some (p, rest)) = some (d ++ p, rest)

behind_data : (Bytes → Option (Bytes × Bytes)) → Bytes → Option Bytes → Option (Bytes × Bytes)
behind_data more d none = none
behind_data more d (some rest) = prepend d (more rest)

behind_size : (Bytes → Option (Bytes × Bytes)) → Option (ℕ × Bytes) → Option (Bytes × Bytes)
behind_size more none = none
behind_size more (some (n, rest)) =
    if n == 0
    then no_data (skip_crlf rest)
    else behind_data more (take n rest) (skip_crlf (drop n rest))

-- The data of all chunks up to the chunk of size 0, and what follows the message. The fuel
-- bounds the number of chunks.
pub dechunk : ℕ → Bytes → Option (Bytes × Bytes)
unfolding no_data behind_size behind_data prepend
dechunk zero s = none
dechunk (suc fuel) s = behind_size (dechunk fuel) (read_size s)

cut_line-append :
    (line rest : Bytes)
    → All (λ c. c ≢ 13) line
    → cut_line (line ++ (13 ∷ 10 ∷ rest)) ≡ some (line, rest)
unfolding cut_line
cut_line-append [] rest h = refl
cut_line-append (c ∷ line) rest h = ground (arith, cut_line-append line rest h.1)

cr_digit : to_digit 16 13 ≡ none
unfolding to_digit
cr_digit = refl

pub read_radix-no_cr : (s : Bytes) (acc n : ℕ) → read_radix 16 s acc ≡ some n → All (λ c. c ≢ 13) s
read_radix-no_cr [] acc n h = tt
read_radix-no_cr (c ∷ s) acc n h =
    let (d, e, k) = read_radix-cons 16 c s acc n h in
    (λ is_cr. cc (e, ap (to_digit 16) is_cr, cr_digit), read_radix-no_cr s (acc * 16 + d) n k)

read_size-line :
    (line rest : Bytes) (n : ℕ)
    → line ≢ []
    → read_radix 16 line 0 ≡ some n
    → read_size (line ++ (crlf ++ rest)) ≡ some (n, rest)
unfolding read_size
read_size-line [] rest n ne h = absurd (ne refl)
read_size-line (c ∷ line) rest n ne h =
    rw (cut_line-append (c ∷ line) rest (read_radix-no_cr (c ∷ line) 0 n h))
      (unfold size_of in ground arith)

pub read_size-to_hex :
    (n : ℕ) (rest : Bytes) → read_size (to_hex n ++ (crlf ++ rest)) ≡ some (n, rest)
read_size-to_hex n rest =
    read_size-line (to_hex n) rest n (to_radix-ne-nil 16 sixteen (omega arith) n)
      (read_radix-to_radix 16 sixteen (omega arith) n)

-- What is on the wire for one piece of data, and for a list of pieces: nothing for an empty one.
abbrev pub chunk : Bytes → Bytes
chunk d = to_hex (length d) ++ (crlf ++ (d ++ crlf))

abbrev pub chunks : List Bytes → Bytes
chunks [] = []
chunks (d ∷ ds) = if ltb 0 (length d) then chunk d ++ chunks ds else chunks ds

abbrev pub concat : List Bytes → Bytes
concat [] = []
concat (d ∷ ds) = d ++ concat ds

abbrev pub last_chunk : Bytes
last_chunk = codes "0\r\n\r\n"

skip_crlf-crlf : (s : Bytes) → skip_crlf (crlf ++ s) ≡ some s
unfolding skip_crlf
skip_crlf-crlf s = refl

dechunk-suc :
    (fuel : ℕ) (s : Bytes) → dechunk (suc fuel) s ≡ behind_size (dechunk fuel) (read_size s)
unfolding dechunk
dechunk-suc fuel s = refl

pos_test : (n : ℕ) → 0 < n → (n == 0) ≡ false
pos_test n h = ground arith

behind_size_pos :
    (more : Bytes → Option (Bytes × Bytes)) (d s : Bytes)
    → 0 < length d
    → behind_size more (some (length d, d ++ (crlf ++ s))) ≡ prepend d (more s)
unfolding behind_size behind_data
behind_size_pos more d s h = rw (
  pos_test (length d) h,
  drop-append-length d (crlf ++ s),
  skip_crlf-crlf s,
  take-append-length d (crlf ++ s),
)

dechunk-chunk :
    (fuel : ℕ) (d s p end : Bytes)
    → 0 < length d
    → dechunk fuel s ≡ some (p, end)
    → dechunk (suc fuel) (chunk d ++ s) ≡ some (d ++ p, end)
dechunk-chunk fuel d s p end h e =
    let wire : chunk d ++ s ≡ to_hex (length d) ++ (crlf ++ (d ++ (crlf ++ s))) =
      simp append_assoc in
    rw (wire, dechunk-suc, read_size-to_hex (length d) (d ++ (crlf ++ s)))
      (behind_size_pos (dechunk fuel) d s h ∙ rw e (unfold prepend in refl))

empty_piece : (d : Bytes) → ltb 0 (length d) ≡ false → d ≡ []
empty_piece [] h = refl
empty_piece (c ∷ d) h = absurd (ground arith)

dechunk_last : (fuel : ℕ) (end : Bytes) → dechunk (suc fuel) (last_chunk ++ end) ≡ some ([], end)
unfolding dechunk read_size size_of cut_line skip_crlf read_radix to_digit
dechunk_last fuel end = refl

-- The chunks of any pieces, closed by the last chunk, are read back as the pieces put together,
-- and the decoder stops behind them.
pub dechunk-chunks :
    (ds : List Bytes) (end : Bytes) (fuel : ℕ)
    → length ds < fuel
    → dechunk fuel (chunks ds ++ (last_chunk ++ end)) ≡ some (concat ds, end)
dechunk-chunks ds end zero h = elim h [ ]
dechunk-chunks [] end (suc fuel) h = dechunk_last fuel end
dechunk-chunks (d ∷ ds) end (suc fuel) h = elim (Bool-cases (ltb 0 (length d))) [
  | inl more ↦
      rw (more, append_assoc)
        (dechunk-chunk fuel d _ (concat ds) end (ltb→lt 0 (length d) more)
          (dechunk-chunks ds end fuel (omega arith)))
  | inr none_left ↦
      rw (none_left, empty_piece d none_left) (dechunk-chunks ds end (suc fuel) (omega arith))
]
