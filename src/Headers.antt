-- ===== src/Headers.antt =====
-- headers.rs: which header a name stands for, and which token a value is.
pub mod Token
use rotor_http.Prelude.{
  ℕ, zero, suc, ◌+◌, Bool, true, false, ◌&&◌, ◌||◌, [], ◌∷◌, Bytes, codes, length, Option, none,
  some, ltb, ◌==◌, if◌then◌else◌,
}
use rotor_http.Std.Ascii.{to_ascii_lowercase, eq_ignore_ascii_case}

unfoldable pub is_transfer_encoding : Bytes → Bool
is_transfer_encoding val = eq_ignore_ascii_case val (codes "Transfer-Encoding")

unfoldable pub is_content_length : Bytes → Bool
is_content_length val = eq_ignore_ascii_case val (codes "Content-Length")

unfoldable pub is_connection : Bytes → Bool
is_connection val = eq_ignore_ascii_case val (codes "Connection")

unfoldable pub is_expect : Bytes → Bool
is_expect val = eq_ignore_ascii_case val (codes "Expect")

-- `b'\r' | b'\n' | b' ' | b'\t'`
unfoldable pub is_blank : ℕ → Bool
is_blank c = c == 13 || c == 10 || c == 32 || c == 9

-- The first loop: skip blanks up to a first letter that leaves room for a token of `size` bytes
-- in a value of `total` bytes. What is left of the iterator, or `none` for `return false`.
unfoldable pub skip_to_first : (ℕ → Bool) → ℕ → ℕ → ℕ → Bytes → Option Bytes
skip_to_first is_first size total idx [] = some []
skip_to_first is_first size total idx (ch ∷ iter) =
    let rest = skip_to_first is_first size total (idx + 1) iter in
    if is_blank ch
    then rest
    else if is_first ch
    then (if ltb total (idx + size) then none else some iter)
    else none

-- The second loop: as many further bytes as the token has, case ignored.
unfoldable pub take_letters : Bytes → Bytes → Option Bytes
take_letters [] iter = some iter
take_letters (l ∷ letters) [] = some []
take_letters (l ∷ letters) (ch ∷ iter) =
    let rest = take_letters letters iter in if l == to_ascii_lowercase ch then rest else none

-- The third loop: blanks up to the end.
unfoldable pub all_blank : Bytes → Bool
all_blank [] = true
all_blank (ch ∷ iter) = is_blank ch && all_blank iter

-- The body that the three functions below share, over the token's first byte and its others.
unfoldable pub is_token : (ℕ → Bool) → Bytes → Bytes → Bool
is_token is_first letters val =
    if ltb (length val) (suc (length letters))
    then false
    else elim (skip_to_first is_first (suc (length letters)) (length val) 0 val) [
      | none ↦ false
      | some iter ↦ elim (take_letters letters iter) [ none ↦ false | some rest ↦ all_blank rest ]
    ]

unfoldable pub is_close : Bytes → Bool
is_close = is_token (λ c. c == b'c' || c == b'C') (codes "lose")

unfoldable pub is_chunked : Bytes → Bool
is_chunked = is_token (λ c. c == b'c' || c == b'C') (codes "hunked")

unfoldable pub is_continue : Bytes → Bool
is_continue = is_token (λ c. c == b'1') (codes "00-continue")
