-- ===== src/Server/Scan/Written.antt =====
-- A length written in decimal, as `add_length` writes it, is the length that a request declares.
use native.Mathlib.Bridge.{le_prop}
use native.Mathlib.Decide.{dec_lt}
use mathlib.Core.Logic.{dif_pos, dif_neg}
use mathlib.Core.WellFounded.{Acc}
use rotor_http.Prelude.{
  ℕ, ◌/◌, ◌%◌, ◌^◌, ◌<◌, ◌≡◌, refl, ◌∙◌, Bool, false, [], ◌∷◌, Bytes, codes, All, arith, inl, inr,
  Bool-cases, ◌==◌, some, ret, Result, ok,
}
use rotor_http.Std.Ascii.{bytes_eq}
use rotor_http.Std.Radix.{to_string, to_radix, emit, digit, lt_wf, ten, div_lt}
use rotor_http.Std.Radix.RoundTrip.{parse_u64-to_string}
use rotor_http.Std.Utf8.{is_utf8_ascii}
use rotor_http.Server.Body.{fixed}
use rotor_http.Server.Scan.{RawRequest, scan_raw_request}
use rotor_http.Server.Scan.Framing.{lengths, any_chunked}
use rotor_http.Server.Scan.Length.{Reads, scan_raw_request-length}
use rotor_http.Server.Scan.Refusal.{scan_raw_request-accepts}

abbrev pub Ascii : Bytes → Type 0
Ascii = All (λ c. c < 128)

Ascii-digit : (n : ℕ) → digit (n % 10) < 128
unfolding digit
Ascii-digit n = let below : n % 10 < 10 = grind arith in ground arith

Ascii-emit : (n : ℕ) (w : Acc ◌<◌ n) (out : Bytes) → Ascii out → Ascii (emit 10 ten n w out)
unfolding emit
Ascii-emit n (Acc.intro _ smaller) out h = elim (dec_lt 0 n) [
  | yes pos ↦ rw (dif_pos _ le_prop pos) (
      Ascii-emit (n / 10) (smaller (n / 10) (div_lt 10 n ten pos)) (digit (n % 10) ∷ out)
        (Ascii-digit n, h))
  | no none_left ↦ rw (dif_neg _ none_left) h
]

pub Ascii-to_string : (n : ℕ) → Ascii (to_string n)
unfolding to_radix
Ascii-to_string n = elim (Bool-cases (n == 0)) [
  | inl zero_digit ↦ rw zero_digit (omega arith, tt)
  | inr more ↦ rw more (Ascii-emit n (lt_wf.apply n) [] tt)
]

ok_injective : {E : Type 0} {a b : ℕ} {r : Result ℕ E} → r ≡ ok a → r ≡ ok b → a ≡ b
ok_injective p q = cc

module _ {E : Type 0} where
  -- A request whose only Content-Length is the decimal text of a 64-bit number, and that has no
  -- chunked coding, is accepted with a body of that many bytes, whatever its other headers are.
  pub scan_raw_request-to_string :
      (raw : RawRequest) (method : Bytes) (version n : ℕ)
      → raw.method ≡ some method
      → raw.version ≡ some version
      → any_chunked raw.headers ≡ false
      → lengths raw.headers ≡ to_string n ∷ []
      → n < 2 ^ 64
      → (is_head : Bool) × (expect : Bool) × (close : Bool) × (scan_raw_request {E = E} raw
          ≡ ret (ok (fixed n, is_head, expect, close)))
  scan_raw_request-to_string raw method version n hm hv plain one word =
      let text : Reads (to_string n) n = record {
        text = is_utf8_ascii (to_string n) (Ascii-to_string n);
        digits = parse_u64-to_string n word;
      } in
      let (b, expect, close, accepted) =
        scan_raw_request-accepts {E = E} raw method version hm hv (rw one (omega arith))
          (rw one ((n, text), tt)) in
      let (m, reads, _, body) =
        rw one at
          (scan_raw_request-length raw method version b _ expect close hm hv plain accepted) in
      let same : m ≡ n = ok_injective reads.digits text.digits in
      (bytes_eq method (codes "HEAD"), expect, close, accepted ∙ rw (body, same) refl)
