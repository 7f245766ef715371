-- ===== src/MultiProgress/Server.antt =====
-- multi_progress/server.c: the handler of the listening socket.
mod Bound
mod Tests
use donkeyji.Prelude.{ℕ, Bool, true, false, Option, ltb, if◌then◌else◌}
use donkeyji.Prelude.Int.{ℤ, pos, ltb_ℤ}
use donkeyji.Prelude.Exec.{Exec, ok}
use donkeyji.MultiProgress.Chunk.{Store}
use donkeyji.MultiProgress.Conn.{World, to_size, conn_mgr_add_conn}

-- `_server_handle_listen`: `sock` is what `accept` returns; `max_conns` is an `int` that is compared
-- with a `size_t`
unfoldable pub server_handle_listen :
    (queues : ℕ → Option Store × Option Store)
    → (fresh : ℕ → ℕ) → (new_bev : ℕ) → (max_conns sock : ℤ) → World
    → Exec World
server_handle_listen queues fresh new_bev max_conns sock w =
    if ltb (to_size max_conns) w.mgr.used
    then ok w
    else if ltb_ℤ sock (pos 0)
    then ok w
    else conn_mgr_add_conn queues fresh new_bev w sock
