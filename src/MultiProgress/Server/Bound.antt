-- ===== src/MultiProgress/Server/Bound.antt =====
-- How many connections multi_progress/server.c lets in.
use donkeyji.Prelude.{ℕ, ◌+◌, ◌%◌, ◌^◌, ◌<◌, ◌≤◌, ◌≡◌, Option, arith, ltb}
use donkeyji.Prelude.Int.{ℤ, pos, ltb_ℤ}
use donkeyji.Prelude.Exec.{Yields, yields, Yields-if, Yields-map}
use donkeyji.MultiProgress.Buffer.{size_mod}
use donkeyji.MultiProgress.Chunk.{Store}
use donkeyji.MultiProgress.Conn.{World, to_size}
use donkeyji.MultiProgress.Conn.Manager.{Managed, FreshConns}
use donkeyji.MultiProgress.Conn.Add.{conn_mgr_add_conn-Added}
use donkeyji.MultiProgress.Server.{server_handle_listen}

-- the manager is well formed, with at most one connection more than `max_conns`
abbrev pub Limited : (max_conns : ℕ) → World → Type 0
Limited max_conns w = Managed w × (w.mgr.used ≤ max_conns + 1)

-- if the manager is well formed and has at most one connection more than `max_conns`, then
-- `_server_handle_listen` ends with a manager of which the same holds, whatever `accept` returns; the
-- memory for new connections is well formed, and 128 more slots stay below 2^31
pub server_handle_listen-Limited :
    (queues : ℕ → Option Store × Option Store) (fresh : ℕ → ℕ) (new_bev max_conns : ℕ) (sock : ℤ)
    (w : World)
    → Limited max_conns w
    → max_conns < 2 ^ 31
    → FreshConns w fresh
    → w.mgr.size + 128 < 2 ^ 31
    → Yields (Limited max_conns) (server_handle_listen queues fresh new_bev (pos max_conns) sock w)
unfolding server_handle_listen to_size
server_handle_listen-Limited queues fresh new_bev max_conns sock w (m, few) small f room =
    let limit : max_conns % size_mod ≡ max_conns = omega (arith, small) in
    rw limit (
      Yields-if (ltb max_conns w.mgr.used) (λ full. yields (m, few))
        (λ free.
          Yields-if (ltb_ℤ sock (pos 0)) (λ none. yields (m, few))
            (λ got.
              Yields-map (conn_mgr_add_conn-Added queues fresh new_bev w sock m f room)
                λ v a. (a.managed, ground (arith, a.used, free)))))
