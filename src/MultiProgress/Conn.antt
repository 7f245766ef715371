-- ===== src/MultiProgress/Conn.antt =====
-- multi_progress/conn.c: connections and the manager of them.
-- A connection is its address and 0 is NULL; a field of all connections is a function, and so is the
-- manager's array of connections. A queue comes with its chunks, which no other queue has; `none` is
-- a NULL queue. `chunkqueue_new` has no return statement, so what its callers receive is an argument,
-- and so is what libevent and the operating system give. `calloc` and `realloc` have the memory for the
-- array. Each `size_t` is 64 bits wide.
pub mod Handlers
pub mod Queues
pub mod Response
pub mod Sample
pub mod Manager
pub mod Add
pub mod Delete
mod Tests
use donkeyji.Prelude.{
  ℕ, zero, suc, ◌+◌, ◌-◌, ◌%◌, Bool, true, false, Option, none, some, List, [], ◌∷◌, ◌||◌, leb,
  ◌==◌, if◌then◌else◌, update,
}
use donkeyji.Prelude.Int.{ℤ, pos, negsuc, eqb_ℤ}
use donkeyji.Prelude.Exec.{Exec, ok, fault, ◌>>=◌}
use donkeyji.Prelude.Chain.{null}
use donkeyji.MultiProgress.Buffer.{size_mod, to_int}
use donkeyji.MultiProgress.Chunk.{Store, chunkqueue_reset, chunkqueue_free}

-- `conn_mgr`: the array, what `calloc` counted and what is in use
pub record ConnMgr : Type 0 where
  pub slot : ℕ → ℕ
  pub size : ℕ
  pub used : ℕ

-- the manager, the connections, and what was given back: descriptors to `close`, connections to
-- `free` and events to `bufferevent_free`, the last one first
pub record World : Type 0 where
  pub mgr : ConnMgr
  pub fd : ℕ → ℤ
  pub ndx : ℕ → ℤ
  pub bev : ℕ → ℕ
  pub read_q : ℕ → Option Store
  pub write_q : ℕ → Option Store
  pub closed : List ℤ
  pub freed : List ℕ
  pub freed_bevs : List ℕ

-- a NULL connection stops the program in `assert`; `queues` is what the
-- two calls of `chunkqueue_new` hand over
unfoldable pub conn_new : (queues : ℕ → Option Store × Option Store) → World → (c : ℕ) → Exec World
conn_new queues w c =
    if c == null
    then fault
    else ok (record w {
      fd = update w.fd c (negsuc 0);
      ndx = update w.ndx c (negsuc 0);
      bev = update w.bev c null;
      read_q = update w.read_q c (queues c).0;
      write_q = update w.write_q c (queues c).1;
    })

-- a call on a queue that is not NULL
unfoldable pub on_queue : (Store → Exec Store) → Option Store → Exec (Option Store)
on_queue call none = ok none
on_queue call (some q) = call q >>= λ q'. ok (some q')

unfoldable pub conn_free : (fuel : ℕ) → World → ℕ → Exec World
unfolding on_queue
conn_free fuel w c =
    let bevs = if w.bev c == null then w.freed_bevs else w.bev c ∷ w.freed_bevs in
    let give_back : Exec World = do
      rq ← on_queue (chunkqueue_free fuel) (w.read_q c)
      wq ← on_queue (chunkqueue_free fuel) (w.write_q c)
      ok (record w {
        read_q = update w.read_q c rq;
        write_q = update w.write_q c wq;
        closed = w.fd c ∷ w.closed;
        freed = c ∷ w.freed;
        freed_bevs = bevs;
      })
    in if c == null then ok w else give_back

-- `new_bev` is what `bufferevent_new` returns
unfoldable pub conn_register_event : (new_bev : ℕ) → World → ℕ → World
conn_register_event new_bev w c = record w { bev = update w.bev c new_bev }

-- the field still has the event's address
unfoldable pub conn_unregister_event : World → ℕ → World
conn_unregister_event w c = record w { freed_bevs = w.bev c ∷ w.freed_bevs }

unfoldable pub conn_reset : (fuel : ℕ) → World → ℕ → Exec World
unfolding on_queue conn_unregister_event
conn_reset fuel w c =
    let v = conn_unregister_event w c in
    let reset : Exec World = do
      rq ← on_queue (chunkqueue_reset fuel) (w.read_q c)
      wq ← on_queue (chunkqueue_reset fuel) (w.write_q c)
      ok (record v {
        read_q = update w.read_q c rq;
        write_q = update w.write_q c wq;
        closed = w.fd c ∷ w.closed;
        fd = update w.fd c (negsuc 0);
        ndx = update w.ndx c (negsuc 0);
      })
    in if c == null then ok w else reset

unfoldable pub conn_mgr_new : World → World
conn_mgr_new w = record w { mgr = record { slot = λ i. null; size = 0; used = 0 } }

-- the loop of `conn_mgr_free`, from slot `i` on with `k` rounds to go
unfoldable pub free_conns : (fuel : ℕ) → (i k : ℕ) → World → Exec World
free_conns fuel i zero w = ok w
free_conns fuel i (suc k) w = conn_free fuel w (w.mgr.slot i) >>= free_conns fuel (suc i) k

-- an array that is NULL has no connections in use
unfoldable pub conn_mgr_free : (fuel : ℕ) → World → Exec World
unfolding free_conns
conn_mgr_free fuel w = if w.mgr.size == 0 then ok w else free_conns fuel 0 w.mgr.used w

-- both loops of `conn_mgr_add_conn`: the slots from `i` on get new connections; `fresh` gives the
-- address of the connection that a slot receives
unfoldable pub new_loop :
    (queues : ℕ → Option Store × Option Store) → (fresh : ℕ → ℕ) → (i k : ℕ) → World → Exec World
new_loop queues fresh i zero w = ok w
new_loop queues fresh i (suc k) w = do
  v ← conn_new queues w (fresh i)
  new_loop queues fresh (suc i) k
      (record v { mgr = record (v.mgr) { slot = update v.mgr.slot i (fresh i) } })

-- the manager with a slot to use
unfoldable pub enlarge :
    (queues : ℕ → Option Store × Option Store) → (fresh : ℕ → ℕ) → World → Exec World
unfolding new_loop
enlarge queues fresh w =
    let m = w.mgr in
    let more = record w { mgr = record m { size = (m.size + 128) % size_mod } } in
    if m.size == 0
    then new_loop queues fresh 0 128 (record w { mgr = record m { size = 128 } })
    else if m.size == m.used
    then new_loop queues fresh m.used (m.size + 128 - m.used) more
    else ok w

unfoldable pub conn_mgr_add_conn :
    (queues : ℕ → Option Store × Option Store)
    → (fresh : ℕ → ℕ) → (new_bev : ℕ) → World
    → (sock : ℤ) → Exec World
unfolding enlarge conn_register_event
conn_mgr_add_conn queues fresh new_bev w sock = do
  v ← enlarge queues fresh w
  let m = v.mgr
  let c = m.slot m.used
  let taken = record v {
    ndx = update v.ndx c (to_int m.used);
    mgr = record m { used = (m.used + 1) % size_mod };
    fd = update v.fd c sock;
  }
  if c == null then fault else ok (conn_register_event new_bev taken c)

-- an `int` as a `size_t`
unfoldable pub to_size : ℤ → ℕ
to_size (pos n) = n % size_mod
to_size (negsuc n) = size_mod - suc n % size_mod

-- the last connection in use takes the place of `c`
unfoldable pub swap_last : World → (n c : ℕ) → World
swap_last w n c =
    let m = w.mgr in
    let last = m.used - 1 in
    let slots = update m.slot n (m.slot last) in
    record w {
      ndx = update (update w.ndx (slots n) (to_int n)) c (negsuc 0);
      mgr = record m { slot = update slots last c; used = last };
    }

-- the test for NULL comes after `c->fd` is read, and does not help; an index outside the array is a
-- fault
unfoldable pub conn_mgr_del_conn : (fuel : ℕ) → World → ℕ → Exec World
unfolding to_size swap_last
conn_mgr_del_conn fuel w c =
    let m = w.mgr in
    let last = (m.used + (size_mod - 1)) % size_mod in
    let at_end : Exec World = do
      v ← conn_reset fuel (record w { ndx = update w.ndx c (negsuc 0) }) c
      ok (record v { mgr = record (v.mgr) { used = last } })
    in let n = to_size (w.ndx c) in
      let inside : Exec World =
        if m.used == 0 || leb m.size n then fault else conn_reset fuel (swap_last w n c) c in
      if c == null
      then fault
      else if eqb_ℤ (w.ndx c) (negsuc 0)
      then ok w
      else if n == last
      then at_end
      else inside
