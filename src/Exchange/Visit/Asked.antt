-- ===== src/Exchange/Visit/Asked.antt =====
-- The request of examples/client.rs as a server reads it.
use rotor_http.Prelude.{◌++◌, ◌≡◌, refl, false, [], ◌∷◌, Bytes, codes, some, ret, ok, arith, length}
use rotor_http.Fetch.Sending.{request_text}
use rotor_http.Headers.{is_content_length, is_transfer_encoding, is_connection, is_expect}
use rotor_http.Server.Body.{fixed}
use rotor_http.Server.Protocol.{Env, Parsed}
use rotor_http.Server.Scan.{RawRequest, scan_raw_request, scan_headers, scan_header, scanned}
use rotor_http.Server.Session.{Incoming, Readable}
use rotor_http.Std.Ascii.{bytes_eq, eq_ignore_ascii_case, to_ascii_lowercase}

-- What httparse makes of the request.
abbrev pub raw_request : Bytes → Bytes → RawRequest
raw_request path host = record {
  method = some (codes "GET");
  path = some path;
  version = some 1;
  headers = record { name = codes "Host"; value = host } ∷ [];
}

abbrev pub incoming : Bytes → Bytes → Incoming
incoming path host = record {
  text = request_text path host;
  raw = raw_request path host;
  method = codes "GET";
  path = path;
  is_head = false;
}

scan_raw_request-host :
    {E : Type 0} (path host : Bytes)
    → scan_raw_request {E = E} (raw_request path host) ≡ ret (ok (fixed 0, false, false, false))
unfolding scan_raw_request scan_headers scan_header is_content_length is_transfer_encoding
    is_connection is_expect bytes_eq eq_ignore_ascii_case to_ascii_lowercase scanned
scan_raw_request-host path host = refl

-- If httparse reads it, whatever follows it, the server can serve it.
pub incoming-Readable :
    (e : Env) (path host : Bytes)
    → ((rest : Bytes)
        → e.parse_request (request_text path host ++ rest)
          ≡ Parsed.complete (length (request_text path host)) (raw_request path host))
    → Readable e (incoming path host)
incoming-Readable e path host h = record {
  not_empty = omega arith;
  reads = h;
  has_version = refl;
  has_method = refl;
  has_path = refl;
  scans = scan_raw_request-host path host;
}
