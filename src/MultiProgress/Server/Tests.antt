-- ===== src/MultiProgress/Server/Tests.antt =====
-- A run of multi_progress/server.c with `max_conns` 2 and two connections in use.
use donkeyji.Prelude.{◌+◌, none, arith}
use donkeyji.Prelude.Int.{pos}
use donkeyji.Prelude.Exec.{Yields}
use donkeyji.MultiProgress.Conn.Sample.{three, three-Managed, three-FreshConns}
use donkeyji.MultiProgress.Server.{server_handle_listen}
use donkeyji.MultiProgress.Server.Bound.{Limited, server_handle_listen-Limited}

server_handle_listen-Limited_example :
    Yields
      (Limited 2)
      (server_handle_listen (λ c. (none, none)) (λ i. i + 100) 50 (pos 2) (pos 7) three)
server_handle_listen-Limited_example =
    server_handle_listen-Limited (λ c. (none, none)) (λ i. i + 100) 50 2 (pos 7) three
      (three-Managed, omega arith) (omega arith) three-FreshConns (omega arith)
