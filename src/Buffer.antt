-- ===== src/Buffer.antt =====
-- The buffer of rotor_stream (`Buf`), which the program uses and does not implement: the
-- operations that it calls, and what it relies on of them.
use rotor_http.Prelude.{ℕ, ◌≤◌, ◌≡◌, refl, ◌++◌, Bytes, length, take, drop}

-- `contents` is the dereference to a slice, `write` is `write`, `write_all` and `extend`.
pub record BufferOps (Buf : Type 0) : Type 0 where
  pub contents : Buf → Bytes
  pub write : Buf → Bytes → Buf
  pub consume : Buf → ℕ → Buf
  pub remove_range : Buf → ℕ → ℕ → Buf

-- The documented behaviour: a write appends, `consume` drops from the front, `remove_range`
-- cuts a range out. Nothing is said of a range that the contents do not hold.
pub record BufferLaws {Buf : Type 0} (ops : BufferOps Buf) : Type 0 where
  pub contents-write : (b : Buf) (d : Bytes) → ops.contents (ops.write b d) ≡ ops.contents b ++ d
  pub contents-consume :
      (b : Buf) (n : ℕ)
      → n ≤ length (ops.contents b)
      → ops.contents (ops.consume b n) ≡ drop n (ops.contents b)
  pub contents-remove_range :
      (b : Buf) (lo hi : ℕ)
      → lo ≤ hi
      → hi ≤ length (ops.contents b)
      → ops.contents (ops.remove_range b lo hi)
        ≡ take lo (ops.contents b) ++ drop hi (ops.contents b)

-- A buffer that is its contents.
abbrev pub byte_buffer : BufferOps Bytes
byte_buffer = record {
  contents = λ b. b;
  write = λ b d. b ++ d;
  consume = λ b n. drop n b;
  remove_range = λ b lo hi. take lo b ++ drop hi b;
}

pub byte_buffer_laws : BufferLaws byte_buffer
byte_buffer_laws = record {
  contents-write = λ b d. refl;
  contents-consume = λ b n h. refl;
  contents-remove_range = λ b lo hi h k. refl;
}
