-- ===== src/Client/Scan/Agreement.antt =====
-- Client and server frame a message alike: the loop over a response's headers against the loop over
-- a request's.
use rotor_http.Prelude.{
  ℕ, ◌≡◌, refl, Bool, true, false, ◌&&◌, ◌||◌, List, [], ◌∷◌, Bytes, arith, if◌then◌else◌,
  Bool-cases, inl, inr, Result, ok, err,
}
use rotor_http.Std.Ascii.{split}
use rotor_http.Headers.{is_connection}
use rotor_http.Client.Head.{BodyKind, fixed, chunked, eof}
use rotor_http.Client.Scan.{Loop, has_no_body, scanned, scan_loop, scan_header, scan_headers}
use rotor_http.Client.Scan as ClientScan
use rotor_http.Server.Body
use rotor_http.Server.Error.{RequestError}
use rotor_http.Server.Scan as ServerScan
use rotor_http.Server.Scan.{Header, any_close, last_is_chunked, comma}
use rotor_http.Server.Scan.Framing.{start, asks_close}

-- The body of a request as the body of a response: where nothing is declared, the one is empty and
-- the other lasts until the end of the stream.
abbrev pub seen_by_client : Bool → Body.BodyKind → BodyKind
seen_by_client has Body.BodyKind.chunked = chunked
seen_by_client true (Body.BodyKind.fixed n) = fixed n
seen_by_client _ _ = eof

abbrev view : ServerScan.Scan → Loop
view s = record {
  has_content_length = s.has_content_length;
  close = s.close;
  result = seen_by_client s.has_content_length s.body;
}

module _ (E : Type 0) where
  abbrev Viewed : Result ServerScan.Scan (RequestError E) → Result Loop (Unit {0})
  Viewed (ok s) = ok (view s)
  Viewed (err e) = err tt

  -- What the server finds, in the client's words.
  abbrev pub framed : Result ServerScan.Scan (RequestError E) → Result (BodyKind × Bool) (Unit {0})
  framed (ok s) = ok (seen_by_client s.has_content_length s.body, s.close)
  framed (err e) = err tt

  set_length-view :
      (v : Bytes) (s : ServerScan.Scan)
      → ClientScan.set_length (view s) (ClientScan.declared_length v)
        ≡ Viewed (ServerScan.set_length s (ServerScan.declared_length v))
  unfolding ClientScan.set_length ClientScan.declared_length ServerScan.set_length
      ServerScan.declared_length
  set_length-view v s = ground arith

  scan_content_length-view :
      (v : Bytes) (s : ServerScan.Scan)
      → ClientScan.scan_content_length v (view s) ≡ Viewed (ServerScan.scan_content_length v s)
  unfolding ClientScan.scan_content_length ServerScan.scan_content_length
  scan_content_length-view v s = ground (arith, set_length-view v s)

  scan_header-view :
      (h : Header) (s : ServerScan.Scan)
      → scan_header h (view s) ≡ Viewed (ServerScan.scan_header h s)
  unfolding scan_header ServerScan.scan_header ServerScan.scan_transfer_encoding
  scan_header-view h s = ground (arith, scan_content_length-view h.value s)

  scan_loop-view :
      (hs : List Header) (s : ServerScan.Scan)
      → scan_loop hs (view s) ≡ Viewed (ServerScan.scan_headers hs s)
  unfolding scan_loop ServerScan.scan_headers
  scan_loop-view [] s = refl
  scan_loop-view (h ∷ hs) s =
      rw (scan_loop, scan_header-view h s) (behind (ServerScan.scan_header h s) (scan_loop-view hs))
    where
      behind :
          (o : Result ServerScan.Scan (RequestError E))
          → ((s : ServerScan.Scan) → scan_loop hs (view s) ≡ Viewed (ServerScan.scan_headers hs s))
          → elim (Viewed o) [ ok s' ↦ scan_loop hs s' | err e ↦ err e ]
            ≡ Viewed (elim o [ ok s' ↦ ServerScan.scan_headers hs s' | err e ↦ err e ])
      behind (ok s') more = more s'
      behind (err e) more = refl

  scanned-Viewed : (o : Result ServerScan.Scan (RequestError E)) → scanned (Viewed o) ≡ framed o
  scanned-Viewed (ok s) = refl
  scanned-Viewed (err e) = refl

  scan_close-asks_close :
      (hs : List Header) (close : Bool) → ClientScan.scan_close hs close ≡ (close || asks_close hs)
  unfolding ClientScan.scan_close asks_close
  scan_close-asks_close [] close = ground arith
  scan_close-asks_close (h ∷ hs) close = ground (
    arith,
    scan_close-asks_close hs
        (if is_connection h.name && any_close (split comma h.value) then true else close),
  )

  -- The client frames a response as the server frames a request with the same headers: a response
  -- to HEAD, with a status from 101 to 199, or with 204 or 304 has no body, and closes exactly when
  -- a Connection header says so; any other response is refused exactly when the server's loop
  -- refuses the headers of an HTTP/1.1 request, and otherwise has the same chunked or fixed body,
  -- or lasts to the end of the stream where the request declares nothing, and closes alike.
  pub scan_headers-framed :
      (is_head : Bool) (code : ℕ) (hs : List Header)
      → scan_headers is_head code hs ≡ (
          if has_no_body is_head code
          then ok (fixed 0, asks_close hs)
          else framed (ServerScan.scan_headers hs (start 1)))
  unfolding scan_headers
  scan_headers-framed is_head code hs = elim (Bool-cases (has_no_body is_head code)) [
    | inl bodyless ↦ rw (bodyless, scan_close-asks_close hs false) refl
    | inr body ↦
        rw (body, scan_loop-view hs (start 1))
          (scanned-Viewed (ServerScan.scan_headers hs (start 1)))
  ]
