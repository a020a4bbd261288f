-- ===== src/Client/Parser/Repeats.antt =====
-- client/parser.rs: a response to the end of the stream that is handed over in parts.
use rotor_http.Prelude.{
  ℕ, ◌≡◌, refl, sym, ◌∙◌, List, [], ◌∷◌, ◌++◌, append_assoc, append-nil, arith, Bytes, length, some,
  ret, slice_middle,
}
use rotor_http.Buffer.{BufferLaws}
use rotor_http.Client.Parser.Arrivals.{Collects, arrive, arrive_step}
use rotor_http.Client.Parser.Chunks.{resumed, again}
use rotor_http.Client.Parser.Reading.{goes_on, round, read_progressive_eof, receive_chunk}
use rotor_http.Client.Parser.{progressive_eof}
use rotor_http.Client.Protocol.{Env}
use rotor_http.Client.Request.{Request}
use rotor_http.Message.Payload.Dechunk.{concat}

-- What has arrived at each arrival, one behind the other: behind `before`, everything that has come
-- so far, again at each of them.
abbrev pub repeated : Bytes → List Bytes → Bytes
repeated before [] = []
repeated before (d ∷ ds) = (before ++ d) ++ repeated (before ++ d) ds

module _ (e : Env) (laws : BufferLaws e.ops) (c : Collects e) where
  open e use {Buf, Req, Scope, ops}
  open ops use {contents, write}
  open laws use {contents-write}

  round_eof :
      (hint end : ℕ) (all : Bytes) (m : Req) (inp : Buf) (req : Request Buf) (scope : Scope)
      → contents inp ≡ all
      → round e (progressive_eof hint) end m inp req scope
        ≡ ret (goes_on (some m) (progressive_eof hint) inp req (c.keep m all scope))
  unfolding round read_progressive_eof receive_chunk
  round_eof hint end all m inp req scope holds =
      let whole = slice_middle 0 (length all) [] all [] refl (omega arith) in
      rw (holds, rw append-nil at whole, c.on_chunk m all req scope)

  -- A response that ends with the stream and is handed over in parts never leaves the input: at
  -- each arrival a handler that keeps what it takes is given everything again that has arrived so
  -- far, the response goes on, and the input holds all of it.
  pub arrive-progressive_eof :
      (ds : List Bytes) (hint : ℕ) (m : Req) (inp : Buf) (req : Request Buf) (scope : Scope)
      → (inp' : Buf) × (scope' : Scope) × (arrive e ds
            (progressive_eof hint)
            m
            inp
            (resumed e req)
            scope
          ≡ ret (goes_on (some m) (progressive_eof hint) inp' (resumed e req) scope'))
        × (c.taken scope' ≡ c.taken scope ++ repeated (contents inp) ds)
        × (contents inp' ≡ contents inp ++ concat ds)
  unfolding arrive again
  arrive-progressive_eof [] hint m inp req scope =
      (inp, scope, refl, sym (append-nil (c.taken scope)), sym (append-nil (contents inp)))
  arrive-progressive_eof (d ∷ ds) hint m inp req scope =
      let holds = contents-write inp d in
      let (inp', scope', runs, took, holds') =
        arrive-progressive_eof ds hint m (write inp d) req (c.keep m (contents inp ++ d) scope) in
      (
        inp',
        scope',
        arrive_step e d ds (progressive_eof hint) m inp (resumed e req) scope _ (
              round_eof hint (length (contents (write inp d))) (contents inp ++ d) m (write inp d)
                (resumed e req) scope holds)
            ∙ runs,
        took ∙ rw (holds, c.taken-keep m (contents inp ++ d) scope) (simp append_assoc),
        holds' ∙ rw holds (append_assoc (contents inp) d (concat ds)),
      )
