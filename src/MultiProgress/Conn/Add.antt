-- ===== src/MultiProgress/Conn/Add.antt =====
-- multi_progress/conn.c: what `conn_mgr_add_conn` does.
use donkeyji.Prelude.{
  ℕ, ◌+◌, ◌%◌, ◌^◌, ◌<◌, ◌≡◌, ◌≢◌, refl, sym, ap, true, false, Bool-cases, inl, inr, Option, arith,
  ltb, ◌==◌, update,
}
use donkeyji.Prelude.Int.{ℤ, pos}
use donkeyji.Prelude.Exec.{Yields, yields, Yields-bind}
use donkeyji.Prelude.Chain.{null}
use donkeyji.MultiProgress.Buffer.{size_mod, to_int}
use donkeyji.MultiProgress.Chunk.{Store}
use donkeyji.MultiProgress.Conn.{World, conn_register_event, conn_mgr_add_conn}
use donkeyji.MultiProgress.Conn.Manager.{Managed, FreshConns, SameConn, Enlarged, enlarge-Enlarged}

-- the connection of the socket stands behind those in use, which keep their slots, sockets, events
-- and queues, and nothing is closed or freed
pub record Added (w : World) (sock : ℤ) (new_bev : ℕ) (v : World) : Type 0 where
  pub managed : Managed v
  pub used : v.mgr.used ≡ w.mgr.used + 1
  pub new_fd : v.fd (v.mgr.slot w.mgr.used) ≡ sock
  pub event : v.bev (v.mgr.slot w.mgr.used) ≡ new_bev
  pub old : (j : ℕ) → j < w.mgr.used → v.mgr.slot j ≡ w.mgr.slot j
  pub kept : (j : ℕ) → j < w.mgr.used → SameConn w v (w.mgr.slot j)
  pub given_back : (v.closed ≡ w.closed) × (v.freed ≡ w.freed) × (v.freed_bevs ≡ w.freed_bevs)

-- the slot behind those in use is taken
taken-Added :
    (w v : World) (sock : ℤ) (new_bev : ℕ)
    → Managed w
    → Enlarged w v
    → (u : World)
    → u ≡ record v {
      ndx = update v.ndx (v.mgr.slot v.mgr.used) (pos v.mgr.used);
      mgr = record (v.mgr) { used = v.mgr.used + 1 };
      fd = update v.fd (v.mgr.slot v.mgr.used) sock;
      bev = update v.bev (v.mgr.slot v.mgr.used) new_bev;
    }
    → Added w sock new_bev u
taken-Added w v sock new_bev n g u e =
    let m = g.managed in
    let away : (j : ℕ) → j < v.mgr.size → j ≢ v.mgr.used → v.mgr.slot j ≢ v.mgr.slot v.mgr.used =
      λ j l other same. other (m.apart j v.mgr.used l g.room same) in
    rw e (record {
      managed = record {
        real = m.real;
        apart = m.apart;
        in_use = λ j l. elim (Bool-cases (ltb j v.mgr.used)) [
          | inl before ↦
              let below : j < v.mgr.used = ground arith in
              ground (
                arith,
                m.in_use j below,
                away j (omega (arith, below, g.room)) (omega (arith, below)),
              )
          | inr here ↦ let at : j ≡ v.mgr.used = ground arith in rw at (ground arith)
        ];
        spare =
            λ j l u'. ground (arith, m.spare j (omega (arith, l)) u', away j u' (omega (arith, l)));
        fits = omega (arith, g.room);
        small = m.small;
      };
      used = ap (λ k. k + 1) g.used;
      new_fd = rw (sym g.used) (ground arith);
      event = rw (sym g.used) (ground arith);
      old = λ j l. g.old j (omega (arith, l, n.fits));
      kept = λ j l.
          let below : j < v.mgr.used = omega (arith, l, g.used) in
          let same : v.mgr.slot j ≡ w.mgr.slot j = g.old j (omega (arith, l, n.fits)) in
          let k = g.kept j (omega (arith, l, n.fits)) in
          let other : w.mgr.slot j ≢ v.mgr.slot v.mgr.used =
            rw (sym same) (away j (omega (arith, below, g.room)) (omega (arith, below))) in
          record {
            fd = ground (arith, k.fd, other);
            bev = ground (arith, k.bev, other);
            read_q = k.read_q;
            write_q = k.write_q;
          };
      given_back = g.given_back;
    })

pub to_int-small : (n : ℕ) → n < 2 ^ 31 → to_int n ≡ pos n
unfolding to_int
to_int-small n small =
    let low : n % 2 ^ 32 ≡ n = omega (arith, small) in
    let positive : ltb n (2 ^ 31) ≡ true = ground (arith, small) in rw (low, positive) refl

-- if the manager is well formed, the memory for new connections is, and 128 more slots stay below
-- 2^31, then `conn_mgr_add_conn` ends; the manager is well formed, with one connection more in use,
-- which stands behind the others and has the socket and the event; the others stay in their slots
-- with their sockets, events and queues, and nothing is closed or freed
pub conn_mgr_add_conn-Added :
    (queues : ℕ → Option Store × Option Store) (fresh : ℕ → ℕ) (new_bev : ℕ) (w : World) (sock : ℤ)
    → Managed w
    → FreshConns w fresh
    → w.mgr.size + 128 < 2 ^ 31
    → Yields (Added w sock new_bev) (conn_mgr_add_conn queues fresh new_bev w sock)
unfolding conn_mgr_add_conn conn_register_event
conn_mgr_add_conn-Added queues fresh new_bev w sock m f room =
    Yields-bind (enlarge-Enlarged queues fresh w m f room) λ v g.
      let in_range : v.mgr.used < 2 ^ 31 = omega (arith, g.room, g.managed.small) in
      let a_conn : (v.mgr.slot v.mgr.used == null) ≡ false =
        ground (arith, g.managed.real v.mgr.used g.room) in
      let counted : (v.mgr.used + 1) % size_mod ≡ v.mgr.used + 1 = omega (arith, in_range) in
      rw a_conn (
        yields (
          taken-Added w v sock new_bev m g _ (rw (counted, to_int-small v.mgr.used in_range) refl)))
