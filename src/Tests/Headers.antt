-- ===== src/Tests/Headers.antt =====
-- Tokens of header values: a value of blanks alone.
use rotor_http.Prelude.{◌≡◌, ◌↔◌, ◌⊎◌, true, Bytes, codes, ◌≤◌, length}
use rotor_http.Headers.{is_close, is_chunked, is_continue, all_blank}
use rotor_http.Headers.Token.{Surrounds, tokens_iff}

abbrev blanks : Bytes
blanks = codes "       "

tokens_iff_example :
    ((is_chunked blanks ≡ true)
      ↔ (Surrounds (codes "chunked") blanks ⊎ (all_blank blanks ≡ true) × (7 ≤ length blanks)))
    × ((is_close blanks ≡ true)
        ↔ (Surrounds (codes "close") blanks ⊎ (all_blank blanks ≡ true) × (5 ≤ length blanks)))
    × ((is_continue blanks ≡ true) ↔ (
        Surrounds (codes "100-continue") blanks ⊎ (all_blank blanks ≡ true) × (12 ≤ length blanks)))
tokens_iff_example = tokens_iff blanks
