-- ===== src/MultiProgress/Conn/Manager.antt =====
-- multi_progress/conn.c: `conn_mgr_add_conn`, and the invariant of the manager.
use donkeyji.Prelude.{
  ℕ, zero, suc, ◌+◌, ◌-◌, ◌%◌, ◌^◌, ◌<◌, ◌≤◌, ◌≡◌, ◌≢◌, refl, sym, ap, ◌∙◌, false, Bool-cases, ◌⊎◌,
  inl, inr, Option, arith, ltb, leb, ◌==◌,
}
use donkeyji.Prelude.Int.{pos, negsuc}
use donkeyji.Prelude.Exec.{Yields, yields, Yields-map, Yields-if}
use donkeyji.Prelude.Chain.{null}
use donkeyji.MultiProgress.Buffer.{size_mod}
use donkeyji.MultiProgress.Chunk.{Store}
use donkeyji.MultiProgress.Conn.{World, conn_new, new_loop, enlarge}

-- the slots have different connections, those in use stand first and know their places, and the
-- others know that they have none
pub record Managed (w : World) : Type 0 where
  pub real : (i : ℕ) → i < w.mgr.size → w.mgr.slot i ≢ null
  pub apart : (i j : ℕ) → i < w.mgr.size → j < w.mgr.size → w.mgr.slot i ≡ w.mgr.slot j → i ≡ j
  pub in_use : (i : ℕ) → i < w.mgr.used → w.ndx (w.mgr.slot i) ≡ pos i
  pub spare : (i : ℕ) → w.mgr.used ≤ i → i < w.mgr.size → w.ndx (w.mgr.slot i) ≡ negsuc 0
  pub fits : w.mgr.used ≤ w.mgr.size
  pub small : w.mgr.size < 2 ^ 31

-- the memory for new connections: not NULL, all different, and not in the array yet
pub record FreshConns (w : World) (fresh : ℕ → ℕ) : Type 0 where
  pub real : (i : ℕ) → fresh i ≢ null
  pub apart : (i j : ℕ) → fresh i ≡ fresh j → i ≡ j
  pub other : (i j : ℕ) → j < w.mgr.size → w.mgr.slot j ≢ fresh i

-- the connection has the socket, the event and the queues that it had
pub record SameConn (w v : World) (c : ℕ) : Type 0 where
  pub fd : v.fd c ≡ w.fd c
  pub bev : v.bev c ≡ w.bev c
  pub read_q : v.read_q c ≡ w.read_q c
  pub write_q : v.write_q c ≡ w.write_q c

-- `k` new connections from slot `i` on
record Grown (w : World) (fresh : ℕ → ℕ) (i k : ℕ) (v : World) : Type 0 where
  size : v.mgr.size ≡ w.mgr.size
  used : v.mgr.used ≡ w.mgr.used
  old : (j : ℕ) → j < i → v.mgr.slot j ≡ w.mgr.slot j
  new : (j : ℕ) → i ≤ j → j < i + k → v.mgr.slot j ≡ fresh j
  idle : (j : ℕ) → i ≤ j → j < i + k → v.ndx (fresh j) ≡ negsuc 0
  kept_ndx : (c : ℕ) → ((j : ℕ) → c ≢ fresh j) → v.ndx c ≡ w.ndx c
  kept : (c : ℕ) → ((j : ℕ) → c ≢ fresh j) → SameConn w v c
  given_back : (v.closed ≡ w.closed) × (v.freed ≡ w.freed) × (v.freed_bevs ≡ w.freed_bevs)
  stays : (c : ℕ) → w.ndx c ≡ negsuc 0 → v.ndx c ≡ negsuc 0

new_loop-Grown :
    (queues : ℕ → Option Store × Option Store) (fresh : ℕ → ℕ) (i k : ℕ) (w : World)
    → ((j : ℕ) → fresh j ≢ null)
    → Yields (Grown w fresh i k) (new_loop queues fresh i k w)
unfolding new_loop conn_new
new_loop-Grown queues fresh i zero w real = yields (record {
  size = refl;
  used = refl;
  old = λ j m. refl;
  new = λ j l m. absurd (omega arith);
  idle = λ j l m. absurd (omega arith);
  kept_ndx = λ c o. refl;
  kept = λ c o. record { fd = refl; bev = refl; read_q = refl; write_q = refl };
  given_back = (refl, refl, refl);
  stays = λ c e. e;
})
new_loop-Grown queues fresh i (suc k) w real =
    let a_conn : (fresh i == null) ≡ false = ground (arith, real i) in
    rw a_conn (
      Yields-map (new_loop-Grown queues fresh (suc i) k _ real) λ v g. record {
        size = g.size;
        used = g.used;
        old = λ j m. ground (arith, g.old j (omega arith));
        new = λ j l m. elim (Bool-cases (leb (suc i) j)) [
          | inl later ↦ g.new j (ground arith) (omega arith)
          | inr here ↦ let e : j ≡ i = ground arith in rw e (ground (arith, g.old i (omega arith)))
        ];
        idle = λ j l m. elim (Bool-cases (leb (suc i) j)) [
          | inl later ↦ g.idle j (ground arith) (omega arith)
          | inr here ↦ let e : j ≡ i = ground arith in rw e (g.stays (fresh i) (ground arith))
        ];
        kept_ndx = λ c o. ground (arith, g.kept_ndx c o, o i);
        kept = λ c o. record {
          fd = ground (arith, (g.kept c o).fd, o i);
          bev = ground (arith, (g.kept c o).bev, o i);
          read_q = ground (arith, (g.kept c o).read_q, o i);
          write_q = ground (arith, (g.kept c o).write_q, o i);
        };
        given_back = g.given_back;
        stays = λ c e. g.stays c (ground arith);
      })

-- the manager with a free slot
pub record Enlarged (w : World) (v : World) : Type 0 where
  pub managed : Managed v
  pub room : v.mgr.used < v.mgr.size
  pub used : v.mgr.used ≡ w.mgr.used
  pub old : (j : ℕ) → j < w.mgr.size → v.mgr.slot j ≡ w.mgr.slot j
  pub kept : (j : ℕ) → j < w.mgr.size → SameConn w v (w.mgr.slot j)
  pub given_back : (v.closed ≡ w.closed) × (v.freed ≡ w.freed) × (v.freed_bevs ≡ w.freed_bevs)

Grown-Enlarged :
    (w x v : World) (fresh : ℕ → ℕ)
    → Managed w
    → FreshConns w fresh
    → w.mgr.used ≡ w.mgr.size
    → w.mgr.size + 128 < 2 ^ 31
    → x ≡ record w { mgr = record (w.mgr) { size = w.mgr.size + 128 } }
    → Grown x fresh w.mgr.size 128 v
    → Enlarged w v
Grown-Enlarged w x v fresh m f full room e g =
    let at_size : v.mgr.size ≡ w.mgr.size + 128 = g.size ∙ ap (λ y. y.mgr.size) e in
    let at_used : v.mgr.used ≡ w.mgr.used = g.used ∙ ap (λ y. y.mgr.used) e in
    let old = λ (j : ℕ) (l : j < w.mgr.size). g.old j l ∙ ap (λ (y : World). y.mgr.slot j) e in
    let new =
      λ (j : ℕ) (l : w.mgr.size ≤ j) (u : j < v.mgr.size). g.new j l (omega (arith, at_size)) in
    let ndx = λ (j : ℕ) (l : j < w.mgr.size).
      g.kept_ndx (w.mgr.slot j) (λ i. f.other i j l) ∙ ap (λ (y : World). y.ndx (w.mgr.slot j)) e in
    let split : (j : ℕ)
        → j < v.mgr.size
        → ((j < w.mgr.size) × (v.mgr.slot j ≡ w.mgr.slot j))
          ⊎ ((w.mgr.size ≤ j) × (v.mgr.slot j ≡ fresh j)) =
      λ j u. elim (Bool-cases (ltb j w.mgr.size)) [
        | inl below ↦ inl (ground arith, old j (ground arith))
        | inr above ↦ inr (ground arith, new j (ground arith) u)
      ] in
    record {
      managed = record {
        real = λ j u. elim (split j u) [
          | inl (l, a) ↦ rw a (m.real j l)
          | inr (l, a) ↦ rw a (f.real j)
        ];
        apart = λ i j u u' same. elim (split i u) [
          | inl (l, a) ↦ elim (split j u') [
            | inl (l', b) ↦ m.apart i j l l' (sym a ∙ same ∙ b)
            | inr (l', b) ↦ absurd (f.other j i l (sym a ∙ same ∙ b))
          ]
          | inr (l, a) ↦ elim (split j u') [
            | inl (l', b) ↦ absurd (f.other i j l' (sym b ∙ sym same ∙ a))
            | inr (l', b) ↦ f.apart i j (sym a ∙ same ∙ b)
          ]
        ];
        in_use = λ j u.
            let l : j < w.mgr.size = omega (arith, at_used, full) in
            rw (old j l) (ndx j l ∙ m.in_use j (omega (arith, full)));
        spare = λ j l u. elim (split j u) [
          | inl (b, a) ↦ absurd (omega (arith, at_used, full))
          | inr (b, a) ↦ rw a (g.idle j b (omega (arith, at_size)))
        ];
        fits = omega (arith, at_size, at_used, full);
        small = omega (arith, at_size, room);
      };
      room = omega (arith, at_size, at_used, full);
      used = at_used;
      old = old;
      kept = λ j l.
          let k = g.kept (w.mgr.slot j) (λ i. f.other i j l) in
          record {
            fd = k.fd ∙ ap (λ (y : World). y.fd (w.mgr.slot j)) e;
            bev = k.bev ∙ ap (λ (y : World). y.bev (w.mgr.slot j)) e;
            read_q = k.read_q ∙ ap (λ (y : World). y.read_q (w.mgr.slot j)) e;
            write_q = k.write_q ∙ ap (λ (y : World). y.write_q (w.mgr.slot j)) e;
          };
      given_back = (
        g.given_back.0 ∙ ap (λ (y : World). y.closed) e,
        g.given_back.1 ∙ ap (λ (y : World). y.freed) e,
        g.given_back.2 ∙ ap (λ (y : World). y.freed_bevs) e,
      );
    }

same-Enlarged : (w : World) → Managed w → w.mgr.used < w.mgr.size → Enlarged w w
same-Enlarged w m room = record {
  managed = m;
  room = room;
  used = refl;
  old = λ j l. refl;
  kept = λ j l. record { fd = refl; bev = refl; read_q = refl; write_q = refl };
  given_back = (refl, refl, refl);
}

loop-Enlarged :
    (queues : ℕ → Option Store × Option Store) (fresh : ℕ → ℕ) (w : World) (i k : ℕ) (x : World)
    → Managed w
    → FreshConns w fresh
    → w.mgr.used ≡ w.mgr.size
    → w.mgr.size + 128 < 2 ^ 31
    → i ≡ w.mgr.size
    → k ≡ 128
    → x ≡ record w { mgr = record (w.mgr) { size = w.mgr.size + 128 } }
    → Yields (Enlarged w) (new_loop queues fresh i k x)
loop-Enlarged queues fresh w i k x m f full room at rounds e =
    rw (at, rounds)
      (Yields-map (new_loop-Grown queues fresh w.mgr.size 128 x f.real)
        λ v g. Grown-Enlarged w x v fresh m f full room e g)

pub enlarge-Enlarged :
    (queues : ℕ → Option Store × Option Store) (fresh : ℕ → ℕ) (w : World)
    → Managed w
    → FreshConns w fresh
    → w.mgr.size + 128 < 2 ^ 31
    → Yields (Enlarged w) (enlarge queues fresh w)
unfolding enlarge
enlarge-Enlarged queues fresh w m f room =
    Yields-if (w.mgr.size == 0)
      (λ z.
        let none : w.mgr.size ≡ 0 = ground arith in
        let full : w.mgr.used ≡ w.mgr.size = omega (arith, none, m.fits) in
        loop-Enlarged queues fresh w 0 128 (record w { mgr = record (w.mgr) { size = 128 } }) m f
          full room (sym none) refl (rw none refl))
      (λ nz.
        Yields-if (w.mgr.size == w.mgr.used)
          (λ e.
            let full : w.mgr.used ≡ w.mgr.size = ground arith in
            let grown : (w.mgr.size + 128) % size_mod ≡ w.mgr.size + 128 = omega (arith, room) in
            loop-Enlarged queues fresh w w.mgr.used (w.mgr.size + 128 - w.mgr.used)
              (record w { mgr = record (w.mgr) { size = (w.mgr.size + 128) % size_mod } }) m f full
              room full (omega (arith, full)) (rw grown refl))
          (λ ne. yields (same-Enlarged w m (ground (arith, m.fits)))))
