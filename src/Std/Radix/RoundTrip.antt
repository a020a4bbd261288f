-- ===== src/Std/Radix/RoundTrip.antt =====
-- A number written in a base is read back; `u64::from_str` reads what `to_string` writes.
use mathlib.Core.Logic.{dif_pos, dif_neg}
use mathlib.Core.WellFounded.{Acc}
use native.Mathlib.Bridge.{le_prop}
use native.Mathlib.Decide.{dec_lt}
use native.Mathlib.Nat.{div-add-mod'}
use rotor_http.Prelude.{
  ℕ, ◌+◌, ◌*◌, ◌/◌, ◌%◌, ◌^◌, ◌≤◌, ◌<◌, ◌≡◌, ◌≢◌, refl, ◌∙◌, ap, inl, inr, [], ◌∷◌, arith, Bytes,
  Option, none, some, ◌==◌, ok, Bool-cases, ==_iff, lt→ltb,
}
use rotor_http.Std.Radix.{
  digit, to_digit, div_lt, emit, lt_wf, to_radix, read_radix, read_u64, parse_u64, to_string, ten,
}

to_digit-digit : (b d : ℕ) → b ≤ 16 → d < b → to_digit b (digit d) ≡ some d
unfolding to_digit digit
to_digit-digit b d hb h = ground arith

div_mod : (b n : ℕ) → n / b * b + n % b ≡ n
div_mod b n = div-add-mod' n b

read_radix_digit :
    (b c d acc : ℕ) (s : Bytes)
    → to_digit b c ≡ some d
    → read_radix b (c ∷ s) acc ≡ read_radix b s (acc * b + d)
unfolding read_radix
read_radix_digit b c d acc s h = ground arith

mod_lt : (b n : ℕ) → 1 < b → n % b < b
mod_lt b n hb = grind arith

module _ (b : ℕ) (hb : 1 < b) (hb16 : b ≤ 16) where
  read_radix-emit :
      (n : ℕ) (w : Acc ◌<◌ n) (out : Bytes)
      → read_radix b (emit b hb n w out) 0 ≡ read_radix b out n
  unfolding emit
  read_radix-emit n (Acc.intro _ smaller) out = elim (dec_lt 0 n) [
    | yes h ↦ rw (dif_pos _ le_prop h) (
        read_radix-emit (n / b) (smaller (n / b) (div_lt b n hb h)) (digit (n % b) ∷ out)
        ∙ read_radix_digit b (digit (n % b)) (n % b) (n / b) out
            (to_digit-digit b (n % b) hb16 (mod_lt b n hb))
        ∙ ap (read_radix b out) (div_mod b n))
    | no h ↦ rw (dif_neg _ h) (ap (read_radix b out) (omega arith))
  ]

  zero_digit : to_digit b b'0' ≡ some 0
  unfolding to_digit
  zero_digit = ground arith

  -- A number written in a base is read back.
  pub read_radix-to_radix : (n : ℕ) → read_radix b (to_radix b hb n) 0 ≡ some n
  unfolding to_radix
  read_radix-to_radix n = elim (Bool-cases (n == 0)) [
    | inl z ↦ rw z (
        read_radix_digit b b'0' 0 0 [] zero_digit
        ∙ unfold read_radix in ap some (omega (arith, (==_iff n 0).0 z)))
    | inr nz ↦ rw nz (read_radix-emit n (lt_wf.apply n) [] ∙ unfold read_radix in refl)
  ]

-- A digit string that is read starts with a digit, and what follows is read onto it.
pub read_radix-cons :
    (b c : ℕ) (s : Bytes) (acc n : ℕ)
    → read_radix b (c ∷ s) acc ≡ some n
    → (d : ℕ) × (to_digit b c ≡ some d) × (read_radix b s (acc * b + d) ≡ some n)
unfolding read_radix
read_radix-cons b c s acc n h = go (to_digit b c) refl h
  where
    go :
        (o : Option ℕ)
        → to_digit b c ≡ o
        → elim o [ none ↦ none | some d ↦ read_radix b s (acc * b + d) ] ≡ some n
        → (d : ℕ) × (to_digit b c ≡ some d) × (read_radix b s (acc * b + d) ≡ some n)
    go none e k = absurd (cc)
    go (some d) e k = (d, e, k)

read_radix_ge : (s : Bytes) (acc n : ℕ) → read_radix 10 s acc ≡ some n → acc ≤ n
read_radix_ge [] acc n h = unfold read_radix in ground arith
read_radix_ge (c ∷ s) acc n h =
    let (d, e, k) = read_radix-cons 10 c s acc n h in
    omega (arith, read_radix_ge s (acc * 10 + d) n k)

-- Digits whose value fits 64 bits are read by `u64::from_str` with no error.
read_u64-read_radix :
    (s : Bytes) (acc n : ℕ) → n < 2 ^ 64 → read_radix 10 s acc ≡ some n → read_u64 s acc ≡ ok n
unfolding read_u64
read_u64-read_radix [] acc n hn h = unfold read_radix in ground arith
read_u64-read_radix (c ∷ s) acc n hn h =
    let (d, e, k) = read_radix-cons 10 c s acc n h in
    let fits : acc * 10 + d < 2 ^ 64 = omega (arith, read_radix_ge s (acc * 10 + d) n k) in
    rw (e, read_u64)
      (rw (lt→ltb (acc * 10 + d) (2 ^ 64) fits) (read_u64-read_radix s (acc * 10 + d) n hn k))

plus_digit : to_digit 10 b'+' ≡ none
unfolding to_digit
plus_digit = refl

parse_u64-read_radix :
    (s : Bytes) (n : ℕ) → s ≢ [] → n < 2 ^ 64 → read_radix 10 s 0 ≡ some n → parse_u64 s ≡ ok n
unfolding parse_u64
parse_u64-read_radix [] n ne hn h = absurd (ne refl)
parse_u64-read_radix (c ∷ s) n ne hn h = elim (Bool-cases (c == b'+')) [
  | inl plus ↦
      let (d, e, k) = read_radix-cons 10 c s 0 n h in
      absurd (cc (e, ap (to_digit 10) ((==_iff c b'+').0 plus), plus_digit))
  | inr other ↦ rw other (read_u64-read_radix (c ∷ s) 0 n hn h)
]

read_radix-nil : (b acc n : ℕ) → read_radix b [] acc ≡ some n → acc ≡ n
unfolding read_radix
read_radix-nil b acc n h = ground arith

pub to_radix-ne-nil : (b : ℕ) (hb : 1 < b) → b ≤ 16 → (n : ℕ) → to_radix b hb n ≢ []
unfolding to_radix
to_radix-ne-nil b hb hb16 n e = elim (Bool-cases (n == 0)) [
  | inl z ↦ cc (rw z at e)
  | inr nz ↦
      let zero_is = read_radix-nil b 0 n (rw e at (read_radix-to_radix b hb hb16 n)) in
      absurd (ground arith)
]

-- `u64::from_str` reads back what `to_string` writes.
pub parse_u64-to_string : (n : ℕ) → n < 2 ^ 64 → parse_u64 (to_string n) ≡ ok n
parse_u64-to_string n h =
    parse_u64-read_radix (to_string n) n (to_radix-ne-nil 10 ten (omega arith) n) h
      (read_radix-to_radix 10 ten (omega arith) n)
