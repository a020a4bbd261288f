-- ===== src/Version.antt =====
-- version.rs: the version of HTTP and how it is printed.
use rotor_http.Prelude.{Bytes, codes}

pub data Version : Type 0 where
  http10 http11 http20 : Version

pub Version-discrete : Discrete Version
Version-discrete = hlevel

-- `Display::fmt`
unfoldable pub fmt : Version → Bytes
fmt http10 = codes "HTTP/1.0"
fmt http11 = codes "HTTP/1.1"
fmt http20 = codes "HTTP/2"
