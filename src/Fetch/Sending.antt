-- ===== src/Fetch/Sending.antt =====
-- examples/client.rs: the text of the request, and the connection until the response.
use rotor_http.Prelude.{◌≡◌, refl, false, ◌∷◌, ◌++◌, append_assoc, Bytes, codes, crlf, some, ret}
use rotor_http.Buffer.{BufferOps, BufferLaws}
use rotor_http.Client.Request.{new, start, add_header, done_headers, done}
use rotor_http.Fetch.{UrlOps, Scope, prepare_request}
use rotor_http.Message
use rotor_http.Message.State.{MessageState}
use rotor_http.Std.Ascii.{eq_ignore_ascii_case, bytes_eq, to_ascii_lowercase}
use rotor_http.Version

abbrev pub request_text : Bytes → Bytes → Bytes
request_text path host =
    codes "GET " ++ (path ++ (codes " HTTP/1.1\r\nHost: " ++ (host ++ codes "\r\n\r\n")))

module _ {Url : Type 0} (url_ops : UrlOps Url) {Buf : Type 0} (ops : BufferOps Buf)
    (laws : BufferLaws ops) where
  open ops use {contents}
  open laws use {contents-write}
  open url_ops use {serialize_path, serialize_host}

  -- The handler writes the request and nothing else, and the request is complete.
  pub prepare_request-done :
      {Time : Type 0} (url : Url) (path host : Bytes) (out : Buf) (scope : Scope Time)
      → serialize_path url ≡ some path
      → serialize_host url ≡ some host
      → (out' : Buf) × (prepare_request url_ops ops (record { url = url }) (new out) scope
          ≡ ret (
            some (record { url = url }),
            record { message = (out', MessageState.done); is_head = some false },
            scope,
          ))
        × (contents out' ≡ contents out ++ request_text path host)
  unfolding prepare_request new start add_header done_headers done Message.request_line
      Message.add_header Message.write_header Message.done_headers Message.done eq_ignore_ascii_case
      bytes_eq to_ascii_lowercase Version.fmt
  prepare_request-done url path host out scope p h = (
    ops.write
        (Message.write_header ops (codes "Host") host
          (ops.write out (codes "GET" ++ (32 ∷ (path ++ codes " HTTP/1.1\r\n")))))
        crlf,
    rw (p, h) refl,
    simp (contents-write, append_assoc),
  )
