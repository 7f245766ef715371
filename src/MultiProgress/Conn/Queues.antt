-- ===== src/MultiProgress/Conn/Queues.antt =====
-- multi_progress/conn.c: `conn_reset`, with the queues of a connection.
use donkeyji.Prelude.{
  ℕ, zero, suc, ◌<◌, ◌≡◌, ◌≢◌, refl, subst, Option, none, some, List, [], ◌∷◌, arith, false, true,
  ◌==◌, update, length,
}
use donkeyji.Prelude.Int.{negsuc}
use donkeyji.Prelude.Exec.{ok, Yields, yields, Yields-map, Yields-bind}
use donkeyji.Prelude.Chain.{null}
use donkeyji.MultiProgress.Chunk.{
  Store, mark_loop, finish_loop, chunkqueue_remove_finished_chunks, chunkqueue_reset,
}
use donkeyji.MultiProgress.Chunk.Append.{IsQueue}
use donkeyji.MultiProgress.Chunk.Retire.{HaveBuffers}
use donkeyji.MultiProgress.Chunk.Reset.{chunkqueue_reset-Emptied}
use donkeyji.MultiProgress.Conn.{World, on_queue, conn_unregister_event, conn_reset}

-- a queue is NULL or well formed, with fewer chunks than the fuel
abbrev pub Sound : (fuel : ℕ) → Option Store → Type 0
Sound fuel none = Unit {0}
Sound fuel (some q) =
    (xs : List ℕ) × (us : List ℕ) × IsQueue q xs us × HaveBuffers q.mem xs × (length xs < fuel)

-- a queue is NULL or has no chunks in use
abbrev pub Idle : Option Store → Type 0
Idle none = Unit {0}
Idle (some q) = q.queue.head ≡ null

reset_empty :
    (fuel : ℕ) (q : Store) → q.queue.head ≡ null → 0 < fuel → chunkqueue_reset fuel q ≡ ok q
unfolding chunkqueue_reset mark_loop chunkqueue_remove_finished_chunks finish_loop
reset_empty zero q e f = absurd (omega arith)
reset_empty (suc fuel) q e f =
    let end : (q.queue.head == null) ≡ true = ground (arith, e) in rw end (rw end refl)

chunkqueue_reset-Idle :
    (fuel : ℕ) (q : Store) (xs us : List ℕ)
    → IsQueue q xs us
    → HaveBuffers q.mem xs
    → length xs < fuel
    → Yields (λ t. t.queue.head ≡ null) (chunkqueue_reset fuel q)
chunkqueue_reset-Idle fuel q [] us i b f = rw (reset_empty fuel q i.used f) (yields i.used)
chunkqueue_reset-Idle fuel q (x ∷ xs) us i b f =
    Yields-map (chunkqueue_reset-Emptied fuel q x xs us i b f) λ t e. e.queue.used

on_queue-Idle :
    (fuel : ℕ) (q : Option Store) → Sound fuel q → Yields Idle (on_queue (chunkqueue_reset fuel) q)
unfolding on_queue
on_queue-Idle fuel none sound = yields tt
on_queue-Idle fuel (some q) (xs, us, i, b, f) =
    Yields-bind (chunkqueue_reset-Idle fuel q xs us i b f) λ t e. yields e

-- the connection is ready for its next use: its descriptor is closed and its event given back
pub record WasReset (w : World) (c : ℕ) (v : World) : Type 0 where
  pub mgr : v.mgr ≡ w.mgr
  pub fd : v.fd ≡ update w.fd c (negsuc 0)
  pub ndx : v.ndx ≡ update w.ndx c (negsuc 0)
  pub closed : v.closed ≡ w.fd c ∷ w.closed
  pub freed_bevs : v.freed_bevs ≡ w.bev c ∷ w.freed_bevs
  pub read_q : Idle (v.read_q c)
  pub write_q : Idle (v.write_q c)

pub conn_reset-WasReset :
    (fuel : ℕ) (w : World) (c : ℕ)
    → c ≢ null
    → Sound fuel (w.read_q c)
    → Sound fuel (w.write_q c)
    → Yields (WasReset w c) (conn_reset fuel w c)
unfolding conn_reset conn_unregister_event
conn_reset-WasReset fuel w c real reads writes =
    let a_conn : (c == null) ≡ false = ground (arith, real) in
    rw a_conn (
      Yields-bind (on_queue-Idle fuel (w.read_q c) reads) λ rq idle_r.
        Yields-bind (on_queue-Idle fuel (w.write_q c) writes) λ wq idle_w.
          let at_r : rq ≡ update w.read_q c rq c = ground arith in
          let at_w : wq ≡ update w.write_q c wq c = ground arith in
          yields (record {
            mgr = refl;
            fd = refl;
            ndx = refl;
            closed = refl;
            freed_bevs = refl;
            read_q = subst Idle at_r idle_r;
            write_q = subst Idle at_w idle_w;
          }))
