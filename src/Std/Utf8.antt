-- ===== src/Std/Utf8.antt =====
-- `str::from_utf8`: which byte strings it accepts. The state is the number of bytes that the
-- current character still needs and the range of the next one.
use rotor_http.Prelude.{
  ℕ, zero, suc, ◌<◌, ◌≡◌, refl, Bool, true, false, ◌&&◌, [], ◌∷◌, arith, Bytes, All, Option, none,
  some, leb, ltb, ◌==◌, if◌then◌else◌,
}

abbrev within : ℕ → ℕ → ℕ → Bool
within lo hi c = leb lo c && leb c hi

lead : ℕ → Option (ℕ × ℕ × ℕ)
lead c =
    if ltb c 0x80
    then some (0, 0x80, 0xBF)
    else if within 0xC2 0xDF c
    then some (1, 0x80, 0xBF)
    else if c == 0xE0
    then some (2, 0xA0, 0xBF)
    else if c == 0xED
    then some (2, 0x80, 0x9F)
    else if within 0xE1 0xEF c
    then some (2, 0x80, 0xBF)
    else if c == 0xF0
    then some (3, 0x90, 0xBF)
    else if within 0xF1 0xF3 c
    then some (3, 0x80, 0xBF)
    else if c == 0xF4
    then some (3, 0x80, 0x8F)
    else none

next : ℕ → ℕ → ℕ → ℕ → Option (ℕ × ℕ × ℕ)
unfolding lead
next zero lo hi c = lead c
next (suc k) lo hi c = if within lo hi c then some (k, 0x80, 0xBF) else none

run : ℕ → ℕ → ℕ → Bytes → Bool
unfolding next
run k lo hi [] = k == 0
run k lo hi (c ∷ s) = elim (next k lo hi c) [
  | none ↦ false
  | some (k', lo', hi') ↦ run k' lo' hi' s
]

unfoldable pub is_utf8 : Bytes → Bool
unfolding run
is_utf8 = run 0 0x80 0xBF

run_ascii : (s : Bytes) → All (λ c. c < 128) s → run 0 0x80 0xBF s ≡ true
unfolding run
run_ascii [] h = refl
run_ascii (c ∷ s) (p, h) = ground (arith, run_ascii s h)

-- ASCII text is UTF-8.
pub is_utf8_ascii : (s : Bytes) → All (λ c. c < 128) s → is_utf8 s ≡ true
unfolding is_utf8
is_utf8_ascii s h = run_ascii s h
