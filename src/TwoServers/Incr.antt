-- ===== src/TwoServers/Incr.antt =====
-- examples/two_servers.rs: the server that counts (`impl Server for Incr`).
use rotor_http.Prelude.{ℕ, Bytes, codes, Option, none, some, Outcome, ret, ◌>>=◌}
use rotor_http.HelloWorld.{Context, Scope, increment, send_string}
use rotor_http.Message.{Message}
use rotor_http.RecvMode.{RecvMode, buffered}
use rotor_http.Server.Protocol.{Env, Head}
use rotor_http.TwoServers.{served}

pub data Incr : Type 0 where
  incr : Incr

module _ (e : Env) (seconds : ℕ → e.Duration) where
  open e use {Buf, Time, Addr, ops, add_time}

  unfoldable pub headers_received :
      Head Addr
      → Message Buf
      → Scope Context Time
      → Outcome (Option (Incr × RecvMode × Time) × Message Buf × Scope Context Time)
  headers_received request m scope = do
    c ← increment scope.context
    ret (
      some (incr, buffered 1024, add_time scope.now (seconds 10)),
      m,
      record scope { context = c },
    )

  unfoldable pub request_received :
      Incr
      → Bytes
      → Message Buf
      → Scope Context Time
      → Outcome (Option Incr × Message Buf × Scope Context Time)
  request_received machine received m scope = do
    m' ← send_string ops (codes "Hello World!") m
    ret (none, m', scope)

  abbrev pub server : Env
  server =
      served e seconds
        (record { headers_received = headers_received; request_received = request_received })
