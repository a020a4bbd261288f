-- ===== src/Std/Radix.antt =====
-- Numbers written in a base (`to_string`, `{}`, `{:x}`) and read back (`u64::from_str`).
pub mod RoundTrip
use mathlib.Core.Logic.{dite}
use mathlib.Core.WellFounded.{Acc, WellFounded}
use native.Mathlib.Decide.{dec_lt}
use rotor_http.Prelude.{
  ℕ, zero, suc, ◌+◌, ◌-◌, ◌*◌, ◌/◌, ◌%◌, ◌^◌, ◌≤◌, ◌<◌, true, false, ◌&&◌, [], ◌∷◌, arith, Bytes,
  Option, none, some, leb, ltb, ◌==◌, if◌then◌else◌, Result, ok, err,
}

Acc-below : (k n : ℕ) → n < k → Acc ◌<◌ n
Acc-below zero n h = elim h [ ]
Acc-below (suc k) n h = Acc.intro n (λ m hm. Acc-below k m (omega arith))

unfoldable pub lt_wf : WellFounded ◌<◌
unfolding Acc-below
lt_wf = record { apply = λ n. Acc-below (suc n) n (omega arith) }

-- The digit of a value below 16, lower case.
unfoldable pub digit : ℕ → ℕ
digit d = if ltb d 10 then b'0' + d else b'a' + (d - 10)

-- `char::to_digit(base)` for a base of at most 16.
unfoldable pub to_digit : ℕ → ℕ → Option ℕ
to_digit b c =
    let d =
      if leb b'0' c && leb c b'9'
      then c - b'0'
      else if leb b'a' c && leb c b'f'
      then c - b'a' + 10
      else if leb b'A' c && leb c b'F'
      then c - b'A' + 10
      else 255 in
    if ltb d b then some d else none

pub div_lt : (b n : ℕ) → 1 < b → 0 < n → n / b < n
div_lt b n hb h = grind arith

module _ (b : ℕ) (hb : 1 < b) where
  unfoldable pub emit : (n : ℕ) → Acc ◌<◌ n → Bytes → Bytes
  emit n (Acc.intro _ smaller) out =
      dite (dec_lt 0 n)
        (λ h. emit (n / b) (smaller (n / b) (div_lt b n hb h)) (digit (n % b) ∷ out)) (λ _. out)

  unfoldable pub to_radix : ℕ → Bytes
  to_radix n = if n == 0 then b'0' ∷ [] else emit n (lt_wf.apply n) []

-- A number's digits read from the left, onto what is read so far; `none` at another byte.
unfoldable pub read_radix : ℕ → Bytes → ℕ → Option ℕ
read_radix b [] acc = some acc
read_radix b (c ∷ s) acc = elim (to_digit b c) [
  | none ↦ none
  | some d ↦ read_radix b s (acc * b + d)
]

-- `ParseIntError`, without its payload type.
pub data ParseIntError : Type 0 where
  empty invalid_digit pos_overflow : ParseIntError

unfoldable pub read_u64 : Bytes → ℕ → Result ℕ ParseIntError
read_u64 [] acc = ok acc
read_u64 (c ∷ s) acc = elim (to_digit 10 c) [
  | none ↦ err invalid_digit
  | some d ↦ elim (ltb (acc * 10 + d) (2 ^ 64)) [
    | true ↦ read_u64 s (acc * 10 + d)
    | false ↦ err pos_overflow
  ]
]

-- Behind a leading `+` there must be a digit.
read_positive : Bytes → Result ℕ ParseIntError
read_positive [] = err invalid_digit
read_positive (c ∷ s) = read_u64 (c ∷ s) 0

-- `str::parse::<u64>`
unfoldable pub parse_u64 : Bytes → Result ℕ ParseIntError
unfolding read_positive
parse_u64 [] = err empty
parse_u64 (c ∷ s) = if c == b'+' then read_positive s else read_u64 (c ∷ s) 0

abbrev pub ten : 1 < 10
ten = omega arith

abbrev pub sixteen : 1 < 16
sixteen = omega arith

-- `to_string` and `{}` on an unsigned number; `{:x}`.
abbrev pub to_string : ℕ → Bytes
to_string = to_radix 10 ten

abbrev pub to_hex : ℕ → Bytes
to_hex = to_radix 16 sixteen
