-- ===== src/Message/Output.antt =====
-- message.rs: the output of any sequence of methods.
use rotor_http.Prelude.{
  ◌≡◌, refl, ap, List, [], ◌∷◌, Option, Outcome, ◌++◌, append_assoc, append-nil, sym, ◌∙◌, ret,
  panic, >>=-eq-ret, ret_injective,
}
use rotor_http.Buffer.{BufferOps, BufferLaws}
use rotor_http.Message.State.{HeaderError}
use rotor_http.Message.{Message}
use rotor_http.Message.Parts.{Part, text_of, render, parts}
use rotor_http.Message.Parts.Written.{perform-parts}
use rotor_http.Message.Calls.{Call, perform, run}

render-append : (ps qs : List Part) → render (ps ++ qs) ≡ render ps ++ render qs
render-append [] qs = refl
render-append (p ∷ ps) qs =
    ap (λ t. text_of p ++ t) (render-append ps qs)
    ∙ sym (append_assoc (text_of p) (render ps) (render qs))

-- Further calls, if this one returns.
abbrev pub behind :
    {Buf : Type 0}
    → (Message Buf → Message Buf)
    → Message Buf
    → Outcome (Option HeaderError × Message Buf)
    → Message Buf
behind more m panic = m
behind more m (ret (r, m')) = more m'

module _ {Buf : Type 0} (ops : BufferOps Buf) where
  -- What the calls write, up to the last one that returns.
  unfoldable pub written : List Call → Message Buf → List Part
  written [] m = []
  written (c ∷ cs) m = elim (perform ops c m) [
    | panic ↦ []
    | ret (r, m') ↦ parts c r m.1 ++ written cs m'
  ]

  -- The message behind the last call that returns.
  unfoldable pub reached : List Call → Message Buf → Message Buf
  reached [] m = m
  reached (c ∷ cs) m = behind (reached cs) m (perform ops c m)

module _ {Buf : Type 0} (ops : BufferOps Buf) where
  pub reached-run :
      (cs : List Call) (m m' : Message Buf) → run ops cs m ≡ ret m' → reached ops cs m ≡ m'
  unfolding run reached
  reached-run [] m m' e = ret_injective e
  reached-run (c ∷ cs) m m' e =
      let ((r, next), stepped, later) = >>=-eq-ret (perform ops c m) _ e in
      rw (stepped, reached) (reached-run cs next m' later)

  module _ (laws : BufferLaws ops) where
    open ops use {contents}

    -- The output is what the calls have written.
    pub reached-written :
        (cs : List Call) (m : Message Buf)
        → contents (reached ops cs m).0 ≡ contents m.0 ++ render (written ops cs m)
    unfolding reached written
    reached-written [] m = sym (append-nil (contents m.0))
    reached-written (c ∷ cs) m = by_call (reached-written cs) (perform ops c m) refl
      where
        by_call :
            ((m' : Message Buf)
              → contents (reached ops cs m').0 ≡ contents m'.0 ++ render (written ops cs m'))
            → (o : Outcome (Option HeaderError × Message Buf)) → perform ops c m ≡ o
            → contents (behind (reached ops cs) m o).0
              ≡ contents m.0
                ++ render (elim o [ panic ↦ [] | ret (r, m') ↦ parts c r m.1 ++ written ops cs m' ])
        by_call ih panic e = sym (append-nil (contents m.0))
        by_call ih (ret (r, m')) e =
            ih m'
            ∙ rw
                (
                  perform-parts ops laws c m m' r e,
                  render-append (parts c r m.1) (written ops cs m'),
                )
                (append_assoc (contents m.0) (render (parts c r m.1)) (render (written ops cs m')))
