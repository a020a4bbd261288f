-- ===== src/Prelude/Checked.antt =====
-- Arithmetic on 64-bit words that panics on overflow, and slices that panic out of range.
use Prim.Native.Nat.{ℕ, ◌+◌, ◌-◌, ◌^◌, ◌≤◌, ◌<◌, min}
use mathlib.Core.Path.{◌≡◌, ◌∙◌}
use mathlib.Core.List.{◌++◌, append_assoc}
use native.Mathlib.Omega.{arith}
use rotor_http.Prelude.Tests.{ltb, lt→ltb, le→ltb, if◌then◌else◌}
use rotor_http.Prelude.Lists.{Bytes, length, length-append, take, drop, take_prefix, drop_prefix}
use rotor_http.Prelude.Fallible.{Outcome, ret, panic}

unfoldable pub add_u64 : ℕ → ℕ → Outcome ℕ
add_u64 a b = if ltb (a + b) (2 ^ 64) then ret (a + b) else panic

unfoldable pub sub_u64 : ℕ → ℕ → Outcome ℕ
sub_u64 a b = if ltb a b then panic else ret (a - b)

-- `s[lo..hi]`
unfoldable pub slice : ℕ → ℕ → Bytes → Outcome Bytes
slice lo hi s =
    if ltb hi lo then panic else if ltb (length s) hi then panic else ret (drop lo (take hi s))

pub add_u64_fits : (a b : ℕ) → a + b < 2 ^ 64 → add_u64 a b ≡ ret (a + b)
unfolding add_u64
add_u64_fits a b h = rw (lt→ltb (a + b) (2 ^ 64) h)

pub sub_u64_fits : (a b : ℕ) → b ≤ a → sub_u64 a b ≡ ret (a - b)
unfolding sub_u64
sub_u64_fits a b h = rw (le→ltb a b h)

pub slice_fits :
    (lo hi : ℕ) (s : Bytes) → lo ≤ hi → hi ≤ length s → slice lo hi s ≡ ret (drop lo (take hi s))
unfolding slice
slice_fits lo hi s p q = rw (le→ltb hi lo p, le→ltb (length s) hi q)

-- The middle of three pieces.
pub slice_middle :
    (lo hi : ℕ) (a b c : Bytes)
    → lo ≡ length a
    → hi ≡ length a + length b
    → slice lo hi (a ++ (b ++ c)) ≡ ret b
slice_middle lo hi a b c p q =
    let cut : take hi (a ++ (b ++ c)) ≡ a ++ b =
      rw (← (append_assoc a b c)) (take_prefix hi (a ++ b) c (omega (arith, length-append a b))) in
    slice_fits lo hi (a ++ (b ++ c)) (omega arith)
      (omega (arith, length-append a (b ++ c), length-append b c))
    ∙ rw (cut, drop_prefix lo a b p)

pub minus_two : (n : ℕ) → n + 2 - 2 ≡ n
minus_two n = omega arith

pub min_left : (a b : ℕ) → a ≤ b → min a b ≡ a
min_left a b h = ground arith

pub min_right : (a b : ℕ) → b ≤ a → min a b ≡ b
min_right a b h = ground arith
