-- ===== src/Tests/Ports.antt =====
-- Visits to the two servers that share a counter.
use rotor_http.Prelude.{◌≡◌, refl, List, [], ◌∷◌, ◌++◌, Bytes, codes, none, ret, arith}
use rotor_http.Buffer.{byte_buffer_laws}
use rotor_http.HelloWorld.Visits.{counted}
use rotor_http.Server.Scan.{scan_raw_request, scan_headers, scanned}
use rotor_http.Server.Session.{Readable}
use rotor_http.Std.Ascii.{bytes_eq}
use rotor_http.TwoServers.Get
use rotor_http.TwoServers.Incr
use rotor_http.TwoServers.Visits.{Visit, to_incr, to_get, visits, texts_of, outputs, visits-counted}
use rotor_http.Tests.Bodies.{simple_delivery}
use rotor_http.Tests.Greetings.{root, knowing}

incr-Readable : Readable (Incr.server knowing (λ n. n)) root
unfolding scan_raw_request scan_headers scanned bytes_eq
incr-Readable = record {
  not_empty = omega arith;
  reads = λ rest. refl;
  has_version = refl;
  has_method = refl;
  has_path = refl;
  scans = refl;
}

get-Readable : Readable (Get.server knowing (λ n. n)) root
unfolding scan_raw_request scan_headers scanned bytes_eq
get-Readable = record {
  not_empty = omega arith;
  reads = λ rest. refl;
  has_version = refl;
  has_method = refl;
  has_path = refl;
  scans = refl;
}

-- Two requests to the one server, one to the other, and one more to the first.
abbrev some_visits : List (Visit Bytes)
some_visits =
    to_incr (root ∷ root ∷ []) (root.text ++ root.text) []
    ∷ to_get (root ∷ []) root.text []
    ∷ to_incr (root ∷ []) root.text (codes "old")
    ∷ []

visits-counted_example :
    (outs : List Bytes) × (visits knowing byte_buffer_laws
        (λ n. n)
        none
        simple_delivery
        7
        some_visits
        (counted 0 5)
      ≡ ret (outs, counted 0 8))
    × (texts_of (λ b. b) outs ≡ outputs (λ b. b) 5 some_visits)
visits-counted_example =
    visits-counted knowing byte_buffer_laws (λ n. n) none simple_delivery 7 some_visits 0 5
      (
        ((incr-Readable, (incr-Readable, tt)), refl),
        (((get-Readable, tt), refl), (((incr-Readable, tt), refl), tt)),
      )
      (omega arith)
