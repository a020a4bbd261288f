-- ===== src/Tests/Responses.antt =====
-- A response's headers scanned by the client.
use rotor_http.Prelude.{ℕ, ◌≡◌, false}
use rotor_http.Client.Scan.{scan_headers}
use rotor_http.Client.Scan.Agreement.{framed, scan_headers-framed}
use rotor_http.Server.Scan as ServerScan
use rotor_http.Server.Scan.Framing.{start}
use rotor_http.Tests.Requests.{both}

scan_headers-framed_example :
    scan_headers false 200 both ≡ framed ℕ (ServerScan.scan_headers both (start 1))
scan_headers-framed_example = scan_headers-framed ℕ false 200 both
