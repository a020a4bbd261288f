-- ===== src/Headers/Token.antt =====
-- Which values the token tests of headers.rs accept.
mod Loops
use Loops.{
  length-lower, take_letters-lower, take_letters-splits, StopsAt, skip_to_first-StopsAt,
  skip_to_first-blank, skip_to_first-append, take_letters-nil,
}
use rotor_http.Prelude.{
  ℕ, suc, ◌+◌, ◌≤◌, ◌<◌, ◌≡◌, refl, ap, ◌∙◌, ◌↔◌, ◌⊎◌, inl, inr, Bool, true, false, [], ◌∷◌, ◌++◌,
  arith, Bytes, codes, length, length-append, Option, none, some, ltb, ltb→le, le→ltb, ◌==◌,
  if◌then◌else◌, Bool-cases,
}
use rotor_http.Std.Ascii.{to_ascii_lowercase, lower}
use rotor_http.Headers.{
  is_blank, skip_to_first, take_letters, all_blank, is_token, is_close, is_chunked, is_continue,
}

-- `val` is the word, in any case, with blanks around it.
pub record Surrounds (word val : Bytes) : Type 0 where
  pub before : Bytes
  pub found : Bytes
  pub after : Bytes
  pub splits : val ≡ before ++ (found ++ after)
  pub blank_before : all_blank before ≡ true
  pub blank_after : all_blank after ≡ true
  pub is_word : lower found ≡ word

-- A value that holds the token's bytes between blanks passes the three loops.
is_token-append :
    (is_first : ℕ → Bool) (before found after : Bytes) (c : ℕ)
    → all_blank before ≡ true
    → all_blank after ≡ true
    → is_blank c ≡ false
    → is_first c ≡ true
    → is_token is_first (lower found) (before ++ (c ∷ (found ++ after))) ≡ true
unfolding is_token
is_token-append is_first before found after c hb ha nb f =
    let val = before ++ (c ∷ (found ++ after)) in
    let size = suc (length (lower found)) in
    let total : length before + suc (length found + length after) ≡ length val =
      omega (arith, length-append before (c ∷ (found ++ after)), length-append found after) in
    rw
      (
        le→ltb (length val) size (omega (arith, length-lower found)),
        skip_to_first-append is_first size (length val) before c (found ++ after) 0 hb nb f
            (omega (arith, length-lower found)),
        take_letters-lower found after,
      )
      ha

module _ (is_first : ℕ → Bool) (w : ℕ) (letters : Bytes)
    (first_iff : (c : ℕ) → (is_first c ≡ true) ↔ (to_ascii_lowercase c ≡ w))
    (first_not_blank : (c : ℕ) → is_first c ≡ true → is_blank c ≡ false) where
  is_token-Surrounds :
      (val : Bytes)
      → is_token is_first letters val ≡ true
      → Surrounds (w ∷ letters) val ⊎ (all_blank val ≡ true) × (length letters < length val)
  unfolding is_token
  is_token-Surrounds val h =
      enough (ltb (length val) (suc (length letters))) refl
        (skip_to_first is_first (suc (length letters)) (length val) 0 val) refl h
    where
      ended :
          (iter : Bytes)
          → StopsAt is_first (suc (length letters)) (length val) 0 val iter
          → (o : Option Bytes) → take_letters letters iter ≡ o
          → elim o [ none ↦ false | some rest ↦ all_blank rest ] ≡ true
          → Surrounds (w ∷ letters) val
      ended iter s none e k = absurd (cc)
      ended iter s (some rest) e k =
          let room : length letters ≤ length iter =
            omega (arith, s.room, ap length s.splits, length-append s.before (s.first ∷ iter)) in
          let (found, split, word) = take_letters-splits letters iter room e in
          record {
            before = s.before;
            found = s.first ∷ found;
            after = rest;
            splits = s.splits ∙ ap (λ t. s.before ++ (s.first ∷ t)) split;
            blank_before = s.blank_before;
            blank_after = k;
            is_word = cc ((first_iff s.first).0 s.is_first_byte, word);
          }

      enough :
          (short : Bool)
          → ltb (length val) (suc (length letters)) ≡ short
          → (o : Option Bytes)
          → skip_to_first is_first (suc (length letters)) (length val) 0 val ≡ o
          → (if short then false else elim o [
            | none ↦ false
            | some iter ↦ elim (take_letters letters iter) [
              | none ↦ false
              | some rest ↦ all_blank rest
            ]
          ])
            ≡ true
          → Surrounds (w ∷ letters) val ⊎ (all_blank val ≡ true) × (length letters < length val)
      enough true l o e k = absurd (cc)
      enough false l none e k = absurd (cc)
      enough false l (some iter) e k =
          elim (skip_to_first-StopsAt is_first (suc (length letters)) (length val) 0 val e) [
            | inl (b, i) ↦ inr (b, ltb→le (length val) (suc (length letters)) l)
            | inr s ↦ inl (ended iter s (take_letters letters iter) refl k)
          ]

  Surrounds-is_token :
      (val : Bytes) → Surrounds (w ∷ letters) val → is_token is_first letters val ≡ true
  Surrounds-is_token val s = cut s.found s.is_word s.splits
    where
      cut :
          (found : Bytes)
          → lower found ≡ w ∷ letters
          → val ≡ s.before ++ (found ++ s.after)
          → is_token is_first letters val ≡ true
      cut [] e p = absurd (cc)
      cut (c ∷ found) e p =
          let f = (first_iff c).1 (cc) in
          let tail : lower found ≡ letters = cc in
          cc (
            is_token-append is_first s.before found s.after c s.blank_before s.blank_after
                (first_not_blank c f) f,
            tail,
            p,
          )

  blank-is_token :
      (val : Bytes)
      → all_blank val ≡ true
      → length letters < length val
      → is_token is_first letters val ≡ true
  unfolding is_token all_blank
  blank-is_token val h l = rw (
    le→ltb (length val) (suc (length letters)) l,
    skip_to_first-blank is_first (suc (length letters)) (length val) val 0 h,
    take_letters-nil letters,
  )

  -- A token test accepts the token between blanks and, since the loops end with the value, every
  -- value of blanks alone that is long enough.
  is_token_iff :
      (val : Bytes)
      → (is_token is_first letters val ≡ true)
        ↔ (Surrounds (w ∷ letters) val ⊎ (all_blank val ≡ true) × (length letters < length val))
  is_token_iff val = (
    is_token-Surrounds val,
    elim [ inl s ↦ Surrounds-is_token val s | inr (b, l) ↦ blank-is_token val b l ],
  )

-- `is_chunked` holds of a value exactly when the value is the word `chunked` in any case between
-- blanks (space, tab, CR, LF), or is seven or more blanks and nothing else.
is_chunked_iff :
    (val : Bytes)
    → (is_chunked val ≡ true)
      ↔ (Surrounds (codes "chunked") val ⊎ (all_blank val ≡ true) × (7 ≤ length val))
unfolding is_chunked is_blank to_ascii_lowercase
is_chunked_iff val =
    is_token_iff _ b'c' (codes "hunked") (λ c. ground arith) (λ c h. ground arith) val

-- `is_close` holds of a value exactly when the value is the word `close` in any case between
-- blanks (space, tab, CR, LF), or is five or more blanks and nothing else.
is_close_iff :
    (val : Bytes)
    → (is_close val ≡ true)
      ↔ (Surrounds (codes "close") val ⊎ (all_blank val ≡ true) × (5 ≤ length val))
unfolding is_close is_blank to_ascii_lowercase
is_close_iff val = is_token_iff _ b'c' (codes "lose") (λ c. ground arith) (λ c h. ground arith) val

-- `is_continue` holds of a value exactly when the value is the word `100-continue` in any case
-- between blanks (space, tab, CR, LF), or is twelve or more blanks and nothing else.
is_continue_iff :
    (val : Bytes)
    → (is_continue val ≡ true)
      ↔ (Surrounds (codes "100-continue") val ⊎ (all_blank val ≡ true) × (12 ≤ length val))
unfolding is_continue is_blank to_ascii_lowercase
is_continue_iff val =
    is_token_iff _ b'1' (codes "00-continue") (λ c. ground arith) (λ c h. ground arith) val

-- `is_chunked`, `is_close` and `is_continue` hold of a value exactly when the value is the word
-- `chunked`, `close` or `100-continue`, in any case, between blanks (space, tab, CR, LF), or is
-- blanks and nothing else, at least seven, five or twelve of them.
pub tokens_iff :
    (val : Bytes)
    → ((is_chunked val ≡ true)
        ↔ (Surrounds (codes "chunked") val ⊎ (all_blank val ≡ true) × (7 ≤ length val)))
      × ((is_close val ≡ true)
          ↔ (Surrounds (codes "close") val ⊎ (all_blank val ≡ true) × (5 ≤ length val)))
      × ((is_continue val ≡ true)
          ↔ (Surrounds (codes "100-continue") val ⊎ (all_blank val ≡ true) × (12 ≤ length val)))
tokens_iff val = (is_chunked_iff val, is_close_iff val, is_continue_iff val)
