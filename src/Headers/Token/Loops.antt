-- ===== src/Headers/Token/Loops.antt =====
-- What the three loops of a token test of headers.rs do, one by one.
use rotor_http.Prelude.{
  ℕ, suc, ◌+◌, ◌≤◌, ◌≡◌, refl, ap, ◌⊎◌, inl, inr, Bool, true, false, [], ◌∷◌, ◌++◌, arith, Bytes,
  length, some, ◌==◌, Bool-cases,
}
use rotor_http.Std.Ascii.{to_ascii_lowercase, lower}
use rotor_http.Headers.{is_blank, skip_to_first, take_letters, all_blank}

pub length-lower : (s : Bytes) → length (lower s) ≡ length s
length-lower [] = refl
length-lower (c ∷ s) = ap suc (length-lower s)

pub take_letters-lower :
    (found rest : Bytes) → take_letters (lower found) (found ++ rest) ≡ some rest
unfolding take_letters
take_letters-lower [] rest = refl
take_letters-lower (c ∷ found) rest = ground (arith, take_letters-lower found rest)

-- The letters that the second loop reads, when enough bytes are left.
pub take_letters-splits :
    (letters iter : Bytes) {rest : Bytes}
    → length letters ≤ length iter
    → take_letters letters iter ≡ some rest
    → (found : Bytes) × (iter ≡ found ++ rest) × (lower found ≡ letters)
unfolding take_letters
take_letters-splits [] iter h e = ([], ground arith, refl)
take_letters-splits (l ∷ letters) [] h e = absurd (omega arith)
take_letters-splits (l ∷ letters) (c ∷ iter) {rest} h e =
    elim (Bool-cases (l == to_ascii_lowercase c)) [
      | inl same ↦
          let (found, s, w) = take_letters-splits letters iter (omega arith) (rw same at e) in
          (c ∷ found, ap (◌∷◌ c) s, ground (arith, w))
      | inr other ↦ absurd (cc (rw other at e))
    ]

module _ (is_first : ℕ → Bool) (size total : ℕ) where
  -- Where the first loop stops.
  pub record StopsAt (idx : ℕ) (val iter : Bytes) : Type 0 where
    pub before : Bytes
    pub first : ℕ
    pub splits : val ≡ before ++ (first ∷ iter)
    pub blank_before : all_blank before ≡ true
    pub is_first_byte : is_first first ≡ true
    pub room : idx + length before + size ≤ total

  pub skip_to_first-StopsAt :
      (idx : ℕ) (val : Bytes) {iter : Bytes}
      → skip_to_first is_first size total idx val ≡ some iter
      → (all_blank val ≡ true) × (iter ≡ []) ⊎ StopsAt idx val iter
  unfolding skip_to_first all_blank
  skip_to_first-StopsAt idx [] e = inl (refl, ground arith)
  skip_to_first-StopsAt idx (c ∷ val) {iter} e = elim (Bool-cases (is_blank c)) [
    | inl blank ↦ elim (skip_to_first-StopsAt (idx + 1) val (rw blank at e)) [
      | inl (b, i) ↦ inl (ground arith, i)
      | inr s ↦ inr (record {
        before = c ∷ s.before;
        first = s.first;
        splits = ap (◌∷◌ c) s.splits;
        blank_before = ground (arith, s.blank_before);
        is_first_byte = s.is_first_byte;
        room = omega (arith, s.room);
      })
    ]
    | inr other ↦ inr (record {
      before = [];
      first = c;
      splits = ground arith;
      blank_before = refl;
      is_first_byte = ground arith;
      room = ground arith;
    })
  ]

  pub skip_to_first-blank :
      (val : Bytes) (idx : ℕ)
      → all_blank val ≡ true
      → skip_to_first is_first size total idx val ≡ some []
  unfolding skip_to_first all_blank
  skip_to_first-blank [] idx h = refl
  skip_to_first-blank (c ∷ val) idx h = ground (arith, skip_to_first-blank val (idx + 1))

  pub skip_to_first-append :
      (before : Bytes) (c : ℕ) (iter : Bytes) (idx : ℕ)
      → all_blank before ≡ true
      → is_blank c ≡ false
      → is_first c ≡ true
      → idx + length before + size ≤ total
      → skip_to_first is_first size total idx (before ++ (c ∷ iter)) ≡ some iter
  unfolding skip_to_first all_blank
  skip_to_first-append [] c iter idx h b f r = ground arith
  skip_to_first-append (x ∷ before) c iter idx h b f r =
      ground (arith, skip_to_first-append before c iter (idx + 1))

pub take_letters-nil : (letters : Bytes) → take_letters letters [] ≡ some []
unfolding take_letters
take_letters-nil [] = refl
take_letters-nil (l ∷ letters) = refl
