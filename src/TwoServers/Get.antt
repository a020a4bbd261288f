-- ===== src/TwoServers/Get.antt =====
-- examples/two_servers.rs: the server that tells the number (`impl Server for Get`).
use rotor_http.Prelude.{ℕ, ◌++◌, Bytes, codes, Option, none, some, Outcome, ret, ◌>>=◌}
use rotor_http.HelloWorld.{Context, Scope, send_string}
use rotor_http.Message.{Message}
use rotor_http.RecvMode.{RecvMode, buffered}
use rotor_http.Server.Protocol.{Env, Head}
use rotor_http.Std.Radix.{to_string}
use rotor_http.TwoServers.{served}

pub data Get : Type 0 where
  get : Get

module _ (e : Env) (seconds : ℕ → e.Duration) where
  open e use {Buf, Time, Addr, ops, add_time}

  unfoldable pub headers_received :
      Head Addr
      → Message Buf
      → Scope Context Time
      → Outcome (Option (Get × RecvMode × Time) × Message Buf × Scope Context Time)
  headers_received request m scope =
      ret (some (get, buffered 1024, add_time scope.now (seconds 10)), m, scope)

  unfoldable pub request_received :
      Get
      → Bytes
      → Message Buf
      → Scope Context Time
      → Outcome (Option Get × Message Buf × Scope Context Time)
  request_received machine received m scope = do
    m' ←
        send_string ops
          (codes "This host has been visited "
            ++ (to_string scope.context.counter ++ codes " times"))
          m
    ret (none, m', scope)

  abbrev pub server : Env
  server =
      served e seconds
        (record { headers_received = headers_received; request_received = request_received })
