-- ===== src/Server/Parser/Whole.antt =====
-- A request with a Content-Length whose body is buffered: from the intent that is formed behind the
-- head to the call of the handler.
use rotor_http.Prelude.{
  ℕ, ◌≤◌, ◌≡◌, refl, ◌∙◌, [], ◌++◌, arith, Bytes, length, length-append, drop_prefix, Option, none,
  some, Outcome, ret, panic, ◌>>=◌, slice_middle,
}
use rotor_http.Buffer.{BufferLaws}
use rotor_http.Message.{Message}
use rotor_http.RecvMode.{buffered}
use rotor_http.Server.Body.{fixed}
use rotor_http.Server.Parser.Decode.{Delivery, again, delivered, feed}
use rotor_http.Server.Parser.Reading.{goes_on, round, read_buffer_fixed, receive}
use rotor_http.Server.Parser.{start_body, body_expectation}
use rotor_http.Server.Protocol.{Env}

module _ (e : Env) (laws : BufferLaws e.ops) (d : Delivery) where
  open e use {Buf, Machine, Seed, Scope, ops}
  open ops use {contents, consume}
  open laws use {contents-consume}

  -- A buffered body of a declared length, behind the head: once the input holds that many bytes,
  -- one round calls `request_received` with exactly these bytes, and what stands behind them, the
  -- next request, is left in the input.
  pub feed_buffered_fixed :
      (limit : ℕ) (body rest : Bytes) (m : Machine) (seed : Seed) (inp : Buf) (resp : Message Buf)
      (scope : Scope)
      → contents inp ≡ body ++ rest
      → (inp' : Buf) × ((do
        p ← start_body (buffered limit) (fixed (length body))
        feed e d 1 seed p (some m) inp resp scope)
          ≡ (do
            (m', resp', scope') ← e.request_received m body resp scope
            ret (goes_on m' none inp' resp' scope')))
        × (contents inp' ≡ rest)
  unfolding start_body feed delivered again round read_buffer_fixed receive body_expectation
  feed_buffered_fixed limit body rest m seed inp resp scope c =
      let size = length-append body rest in
      let there : length body ≤ length (contents inp) = rw c (omega (arith, size)) in
      (
        consume inp (length body),
        rw (d.deliver_bytes (length body) (contents inp) there) (
            rw (c, slice_middle 0 (length body) [] body rest refl (omega arith))
              (ends (e.request_received m body resp scope) (consume inp (length body)))),
        contents-consume inp (length body) there ∙ rw c (drop_prefix (length body) body rest refl),
      )
    where
      ends :
          (o : Outcome (Option Machine × Message Buf × Scope)) (inp' : Buf)
          → (do
            r ← (do (m', resp', scope') ← o; ret (goes_on m' none inp' resp' scope'))
            again e d (feed e d 0 seed) r)
            ≡ (do (m', resp', scope') ← o; ret (goes_on m' none inp' resp' scope'))
      ends (ret x) inp' = refl
      ends panic inp' = refl
