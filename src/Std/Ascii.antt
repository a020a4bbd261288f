-- ===== src/Std/Ascii.antt =====
-- `to_ascii_lowercase`, `eq_ignore_ascii_case` and `split` on bytes.
use rotor_http.Prelude.{
  ℕ, ◌+◌, ◌≡◌, ◌↔◌, Bool, true, false, ◌&&◌, List, [], ◌∷◌, arith, Bytes, leb, ◌==◌, if◌then◌else◌,
}

unfoldable pub to_ascii_lowercase : ℕ → ℕ
to_ascii_lowercase c = if leb b'A' c && leb c b'Z' then c + 32 else c

abbrev pub lower : Bytes → Bytes
lower [] = []
lower (c ∷ s) = to_ascii_lowercase c ∷ lower s

unfoldable pub eq_ignore_ascii_case : Bytes → Bytes → Bool
eq_ignore_ascii_case [] [] = true
eq_ignore_ascii_case (x ∷ xs) (y ∷ ys) =
    to_ascii_lowercase x == to_ascii_lowercase y && eq_ignore_ascii_case xs ys
eq_ignore_ascii_case _ _ = false

-- Byte strings are equal (`==` on `str` and slices).
unfoldable pub bytes_eq : Bytes → Bytes → Bool
bytes_eq [] [] = true
bytes_eq (x ∷ xs) (y ∷ ys) = x == y && bytes_eq xs ys
bytes_eq _ _ = false

-- The piece before the first separator, and the pieces after it.
split_at : ℕ → ℕ → Bytes → List Bytes → List Bytes
split_at sep c p ps = if c == sep then [] ∷ (p ∷ ps) else (c ∷ p) ∷ ps

split_cons : ℕ → ℕ → List Bytes → List Bytes
unfolding split_at
split_cons sep c [] = []
split_cons sep c (p ∷ ps) = split_at sep c p ps

-- `slice.split(|&x| x == sep)`: never empty.
unfoldable pub split : ℕ → Bytes → List Bytes
unfolding split_cons
split sep [] = [] ∷ []
split sep (c ∷ s) = split_cons sep c (split sep s)

pub eq_ignore_ascii_case_iff :
    (a b : Bytes) → (eq_ignore_ascii_case a b ≡ true) ↔ (lower a ≡ lower b)
unfolding eq_ignore_ascii_case
eq_ignore_ascii_case_iff (x ∷ xs) (y ∷ ys) = ground (arith, eq_ignore_ascii_case_iff xs ys)
eq_ignore_ascii_case_iff _ _ = ground arith

pub bytes_eq_iff : (a b : Bytes) → (bytes_eq a b ≡ true) ↔ (a ≡ b)
unfolding bytes_eq
bytes_eq_iff (x ∷ xs) (y ∷ ys) = ground (arith, bytes_eq_iff xs ys)
bytes_eq_iff _ _ = ground arith
