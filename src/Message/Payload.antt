-- ===== src/Message/Payload.antt =====
-- `write_body` and `done` after the headers: what a sequence of chunks and the final call put
-- into the buffer, for a body of a fixed size, for a chunked one and for an ignored one.
pub mod Dechunk
use native.Mathlib.Decide.{dec_le}
use rotor_http.Prelude.{
  ℕ, zero, suc, ◌+◌, ◌-◌, ◌≤◌, ◌<◌, ◌≡◌, ◌≢◌, ◌==◌, refl, sym, ap, ◌∙◌, ◌↔◌, ◌⊎◌, inl, inr, Bool,
  true, false, not, ◌&&◌, List, [], ◌∷◌, ◌++◌, append_assoc, append-nil, arith, Bytes, codes, crlf,
  length, length-append, ltb, ltb→le, lt→ltb, le→ltb, if◌then◌else◌, Bool-cases, Outcome, ret,
  panic, ◌>>=◌, >>=-eq-ret, Option, some, none,
}
use rotor_http.Buffer.{BufferOps, BufferLaws}
use rotor_http.Message.State.{MessageState, fixed_body, chunked_body, bodyless}
use rotor_http.Message.{Message, write_chunk, write_body}
use rotor_http.Message
use rotor_http.Std.Radix.{to_hex}
use Dechunk.{dechunk, chunk, chunks, concat, last_chunk, dechunk-chunks}

module _ {Buf : Type 0} (ops : BufferOps Buf) where
  -- One `write_body` for each piece, in order.
  unfoldable pub write_pieces : List Bytes → Message Buf → Outcome (Message Buf)
  write_pieces [] m = ret m
  write_pieces (d ∷ ds) m = do m' ← write_body ops d m; write_pieces ds m'

  -- The body as a whole: the pieces, then `done`.
  unfoldable pub send : List Bytes → Message Buf → Outcome (Message Buf)
  send ds m = do m' ← write_pieces ds m; Message.done ops m'

module _ {Buf : Type 0} (ops : BufferOps Buf) (laws : BufferLaws ops) where
  open ops use {contents, write}
  open laws use {contents-write}

  fixed_pieces :
      (ds : List Bytes) (n : ℕ) (b : Buf)
      → length (concat ds) ≤ n
      → (b' : Buf) × (write_pieces ops ds (b, fixed_body false n)
          ≡ ret (b', fixed_body false (n - length (concat ds))))
        × (contents b' ≡ contents b ++ concat ds)
  unfolding write_pieces write_body
  fixed_pieces [] n b h =
      (b, ap (λ k. ret (b, fixed_body false k)) (omega arith), sym (append-nil _))
  fixed_pieces (d ∷ ds) n b h =
      let sizes = length-append d (concat ds) in
      let (b', e, c) = fixed_pieces ds (n - length d) (write b d) (omega arith) in
      (
        b',
        rw (le→ltb n (length d) (omega arith))
            (e ∙ ap (λ k. ret (b', fixed_body false k)) (omega arith)),
        c ∙ rw contents-write (append_assoc (contents b) d (concat ds)),
      )

  pub write_chunk-contents :
      (d : Bytes) (b : Buf) → contents (write_chunk ops d b) ≡ contents b ++ chunk d
  unfolding write_chunk
  write_chunk-contents d b = simp (contents-write, append_assoc)

  chunked_pieces :
      (ds : List Bytes) (b : Buf)
      → (b' : Buf) × (write_pieces ops ds (b, chunked_body false) ≡ ret (b', chunked_body false))
        × (contents b' ≡ contents b ++ chunks ds)
  unfolding write_pieces write_body
  chunked_pieces [] b = (b, refl, sym (append-nil _))
  chunked_pieces (d ∷ ds) b = elim (Bool-cases (ltb 0 (length d))) [
    | inl more ↦
        let (b', e, c) = chunked_pieces ds (write_chunk ops d b) in
        (
          b',
          rw more e,
          c ∙ rw (more, write_chunk-contents d b) (append_assoc (contents b) (chunk d) (chunks ds)),
        )
    | inr empty ↦ let (b', e, c) = chunked_pieces ds b in (b', rw empty e, c ∙ rw empty refl)
  ]

  fixed_pieces_panic :
      (ds : List Bytes) (n : ℕ) (b : Buf)
      → n < length (concat ds)
      → write_pieces ops ds (b, fixed_body false n) ≡ panic
  unfolding write_pieces write_body
  fixed_pieces_panic [] n b h = absurd (omega arith)
  fixed_pieces_panic (d ∷ ds) n b h = elim (Bool-cases (ltb n (length d))) [
    | inl over ↦ rw over refl
    | inr fits ↦ rw fits (
        fixed_pieces_panic ds (n - length d) (write b d)
          (omega (arith, length-append d (concat ds), ltb→le n (length d) fits)))
  ]

  -- A body of the declared size, written in any pieces.
  send-whole_body :
      (ds : List Bytes) (b : Buf)
      → (b' : Buf) × (send ops ds (b, fixed_body false (length (concat ds)))
          ≡ ret (b', MessageState.done))
        × (contents b' ≡ contents b ++ concat ds)
  unfolding send Message.done
  send-whole_body ds b =
      let (b', e, c) = fixed_pieces ds (length (concat ds)) b (omega arith) in
      let none_left : length (concat ds) - length (concat ds) ≡ 0 = omega arith in
      (b', rw (e, none_left) refl, c)

  done-fixed_body :
      (b : Buf) (left : ℕ) (m : Message Buf)
      → Message.done ops (b, fixed_body false left) ≡ ret m
      → (left ≡ 0) × (m ≡ (b, MessageState.done))
  unfolding Message.done
  done-fixed_body b zero m h = ground arith
  done-fixed_body b (suc left) m h = absurd (cc)

  -- Where the end of the message is accepted, the body had the declared size.
  send-fixed_body_exact :
      (ds : List Bytes) (n : ℕ) (b : Buf) (m : Message Buf)
      → send ops ds (b, fixed_body false n) ≡ ret m
      → (length (concat ds) ≡ n)
        × (contents m.0 ≡ contents b ++ concat ds)
        × (m.1 ≡ MessageState.done)
  unfolding send
  send-fixed_body_exact ds n b m h = elim (dec_le (length (concat ds)) n) [
    | no over ↦ absurd (cc (h, rw (fixed_pieces_panic ds n b (omega arith)) at h))
    | yes fits ↦
        let (b', e, c) = fixed_pieces ds n b fits in
        let (none_left, end) = done-fixed_body b' (n - length (concat ds)) m (rw e at h) in
        (omega arith, rw (ap (λ (x : Message Buf). x.0) end) c, ap (λ (x : Message Buf). x.1) end)
  ]

  send-other_size :
      (ds : List Bytes) (n : ℕ) (b : Buf)
      → length (concat ds) ≢ n
      → (o : Outcome (Message Buf)) → send ops ds (b, fixed_body false n) ≡ o
      → o ≡ panic
  send-other_size ds n b other (ret m) e = absurd (other (send-fixed_body_exact ds n b m e).0)
  send-other_size ds n b other panic e = refl

  -- A body of declared size is sent exactly: written in any pieces and ended with `done`, it reaches
  -- its end if the lengths of the pieces add up to the content length, and the buffer has then
  -- grown by the pieces, in order; with more or with fewer bytes the writing or the end panics.
  pub send-fixed_body :
      (ds : List Bytes) (n : ℕ) (b : Buf)
      → (b' : Buf) × (send ops ds (b, fixed_body false n)
          ≡ (if length (concat ds) == n then ret (b', MessageState.done) else panic))
        × (contents b' ≡ contents b ++ concat ds)
  send-fixed_body ds n b = elim (Bool-cases (length (concat ds) == n)) [
    | inl same ↦
        let size : length (concat ds) ≡ n = ground (arith, same) in
        let (b', e, c) = send-whole_body ds b in (b', rw (same, ← size) e, c)
    | inr other ↦
        let differs : length (concat ds) ≢ n = λ size. ground (arith, other, size) in
        (
          write b (concat ds),
          rw other (send-other_size ds n b differs _ refl),
          contents-write b (concat ds),
        )
  ]

  -- What a chunked body puts on the wire.
  pub send-chunks :
      (ds : List Bytes) (b : Buf)
      → (b' : Buf) × (send ops ds (b, chunked_body false) ≡ ret (b', MessageState.done))
        × (contents b' ≡ contents b ++ (chunks ds ++ last_chunk))
  unfolding send Message.done
  send-chunks ds b =
      let (b', e, c) = chunked_pieces ds b in
      (
        write b' last_chunk,
        rw e refl,
        rw (contents-write, c) (append_assoc (contents b) (chunks ds) last_chunk),
      )

  -- A chunked body always comes to its end, and what it adds to the buffer is decoded, with
  -- whatever follows it, to the pieces put together.
  pub send-chunked_body :
      (ds : List Bytes) (b : Buf)
      → (b' : Buf) × (wire : Bytes) × (send ops ds (b, chunked_body false)
          ≡ ret (b', MessageState.done))
        × (contents b' ≡ contents b ++ wire)
        × ((end : Bytes) → dechunk (suc (length ds)) (wire ++ end) ≡ some (concat ds, end))
  send-chunked_body ds b =
      let (b', e, c) = send-chunks ds b in
      (
        b',
        chunks ds ++ last_chunk,
        e,
        c,
        λ end. rw append_assoc (dechunk-chunks ds end (suc (length ds)) (omega arith)),
      )
