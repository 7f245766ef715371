-- ===== src/MultiProgress/Conn/Delete.antt =====
-- multi_progress/conn.c: what `conn_mgr_del_conn` does.
use donkeyji.Prelude.{
  ℕ, ◌+◌, ◌-◌, ◌%◌, ◌<◌, ◌≡◌, ◌≢◌, sym, ap, ◌∙◌, false, ◌||◌, Bool-cases, inl, inr, ◌∷◌, arith, leb,
  ◌==◌, if◌then◌else◌, update,
}
use donkeyji.Prelude.Int.{ℤ, negsuc, eqb_ℤ}
use donkeyji.Prelude.Exec.{Yields, yields, Yields-map, Yields-bind, Yields-if}
use donkeyji.Prelude.Chain.{null}
use donkeyji.MultiProgress.Buffer.{size_mod}
use donkeyji.MultiProgress.Conn.{World, swap_last, to_size, conn_mgr_del_conn}
use donkeyji.MultiProgress.Conn.Queues.{Sound, WasReset, conn_reset-WasReset}
use donkeyji.MultiProgress.Conn.Manager.{Managed}
use donkeyji.MultiProgress.Conn.Add.{to_int-small}

-- the connection of slot `n` is no longer in use, and closed; the last one has its place, and the
-- others keep theirs
pub record Deleted (w : World) (n : ℕ) (v : World) : Type 0 where
  pub managed : Managed v
  pub used : v.mgr.used + 1 ≡ w.mgr.used
  pub out : (j : ℕ) → j < v.mgr.used → v.mgr.slot j ≢ w.mgr.slot n
  pub stay : (j : ℕ) → j < v.mgr.used → j ≢ n → v.mgr.slot j ≡ w.mgr.slot j
  pub moved : n < v.mgr.used → v.mgr.slot n ≡ w.mgr.slot v.mgr.used
  pub fd : v.fd ≡ update w.fd (w.mgr.slot n) (negsuc 0)
  pub closed : v.closed ≡ w.fd (w.mgr.slot n) ∷ w.closed

-- the last connection in use
last-Deleted :
    (w v : World) (n : ℕ)
    → Managed w
    → n + 1 ≡ w.mgr.used
    → WasReset (record w { ndx = update w.ndx (w.mgr.slot n) (negsuc 0) }) (w.mgr.slot n) v
    → (k : ℕ) → k ≡ n
    → Deleted w n (record v { mgr = record (v.mgr) { used = k } })
last-Deleted w v n m at r k e =
    let slots : v.mgr.slot ≡ w.mgr.slot = ap (λ y. y.slot) r.mgr in
    let size : v.mgr.size ≡ w.mgr.size = ap (λ y. y.size) r.mgr in
    let place = λ (j : ℕ). ap (λ (f : ℕ → ℕ). f j) slots in
    let ndx = λ (c : ℕ). ap (λ (f : ℕ → ℤ). f c) r.ndx in
    let away : (j : ℕ) → j < w.mgr.size → j ≢ n → w.mgr.slot j ≢ w.mgr.slot n =
      λ j l other same. other (m.apart j n l (omega (arith, at, m.fits)) same) in
    record {
      managed = record {
        real = λ j l. rw (place j) (m.real j (omega (arith, l, size)));
        apart = λ i j l l' same.
            m.apart i j (omega (arith, l, size)) (omega (arith, l', size))
              (sym (place i) ∙ same ∙ place j);
        in_use = λ j l. rw (place j) (
            ground (
              arith,
              ndx (w.mgr.slot j),
              m.in_use j (omega (arith, l, e, at)),
              away j (omega (arith, l, e, at, m.fits)) (omega (arith, l, e)),
            ));
        spare = λ j l u. elim (Bool-cases (j == n)) [
          | inl here ↦
              let at_n : j ≡ n = ground arith in
              rw (place j, at_n) (ground (arith, ndx (w.mgr.slot n)))
          | inr other ↦ rw (place j) (
              ground (
                arith,
                ndx (w.mgr.slot j),
                m.spare j (ground (arith, l, e, at)) (omega (arith, u, size)),
              ))
        ];
        fits = omega (arith, e, at, m.fits, size);
        small = omega (arith, size, m.small);
      };
      used = omega (arith, e, at);
      out = λ j l. rw (place j) (away j (omega (arith, l, e, at, m.fits)) (omega (arith, l, e)));
      stay = λ j l other. place j;
      moved = λ l. absurd (omega (arith, l, e));
      fd = r.fd;
      closed = r.closed;
    }

-- `i` and `k` exchanged
abbrev exchange : (i k : ℕ) → ℕ → ℕ
exchange i k j = if j == k then i else if j == i then k else j

-- a connection before the last one
swapped-Deleted :
    (w v : World) (n : ℕ)
    → Managed w
    → n + 1 < w.mgr.used
    → WasReset (swap_last w n (w.mgr.slot n)) (w.mgr.slot n) v
    → Deleted w n v
unfolding swap_last
swapped-Deleted w v n m before r =
    let last = w.mgr.used - 1 in
    let place : (j : ℕ) → v.mgr.slot j ≡ w.mgr.slot (exchange n last j) =
      λ j. ap (λ y. y.slot j) r.mgr ∙ ground arith in
    let size : v.mgr.size ≡ w.mgr.size = ap (λ y. y.size) r.mgr in
    let used : v.mgr.used ≡ last = ap (λ y. y.used) r.mgr in
    let ndx = λ (c : ℕ). ap (λ (f : ℕ → ℤ). f c) r.ndx in
    let own = to_int-small n (omega (arith, before, m.fits, m.small)) in
    let low : n < w.mgr.size = omega (arith, before, m.fits) in
    let high : last < w.mgr.size = omega (arith, before, m.fits) in
    let within : (j : ℕ) → j < v.mgr.size → exchange n last j < w.mgr.size =
      λ j l. ground (arith, low, high, size) in
    let away : (i j : ℕ) → i < w.mgr.size → j < w.mgr.size → i ≢ j → w.mgr.slot i ≢ w.mgr.slot j =
      λ i j l l' other same. other (m.apart i j l l' same) in
    let ends : w.mgr.slot last ≢ w.mgr.slot n = away last n high low (omega (arith, before)) in
    record {
      managed = record {
        real = λ j l. rw (place j) (m.real (exchange n last j) (within j l));
        apart = λ i j l l' same.
            let e =
              m.apart (exchange n last i) (exchange n last j) (within i l) (within j l')
                (sym (place i) ∙ same ∙ place j) in
            ground (arith, e);
        in_use = λ j l. rw (place j) (elim (Bool-cases (j == n)) [
          | inl here ↦
              let at : exchange n last j ≡ last = ground (arith, l, used) in
              rw at (ground (arith, ndx (w.mgr.slot last), own, ends))
          | inr other ↦
              let at : exchange n last j ≡ j = ground (arith, l, used) in
              let below : j < last = omega (arith, l, used) in
              let in_array : j < w.mgr.size = omega (arith, below, high) in
              rw at (
                ground (
                  arith,
                  ndx (w.mgr.slot j),
                  m.in_use j (omega (arith, below)),
                  away j n in_array low (ground arith),
                  away j last in_array high (omega (arith, below)),
                ))
        ]);
        spare = λ j l u. rw (place j) (elim (Bool-cases (j == last)) [
          | inl here ↦
              let at : exchange n last j ≡ n = ground arith in
              rw at (ground (arith, ndx (w.mgr.slot n)))
          | inr other ↦
              let above : last < j = ground (arith, l, used) in
              let at : exchange n last j ≡ j = ground (arith, above, before) in
              let in_array : j < w.mgr.size = omega (arith, u, size) in
              rw at (
                ground (
                  arith,
                  ndx (w.mgr.slot j),
                  m.spare j (omega (arith, above)) in_array,
                  away j n in_array low (omega (arith, above, before)),
                  away j last in_array high (omega (arith, above)),
                ))
        ]);
        fits = omega (arith, used, size, m.fits);
        small = omega (arith, size, m.small);
      };
      used = omega (arith, used, before);
      out = λ j l. rw (place j) (
          away (exchange n last j) n (within j (omega (arith, l, used, high, size))) low
            (ground (arith, l, used, before)));
      stay = λ j l other. place j ∙ ground (arith, l, used, other);
      moved = λ l. place n ∙ ground (arith, l, used);
      fd = r.fd;
      closed = r.closed;
    }

-- if the manager is well formed and the queues of the connection in slot `n`, one of those in use,
-- are sound, then `conn_mgr_del_conn` of that connection ends; the manager is well formed, with one
-- connection less in use, this one is not among them, the last one has taken its slot unless it was
-- the last one itself, and the others stay; and its descriptor is closed
pub conn_mgr_del_conn-Deleted :
    (fuel : ℕ) (w : World) (n : ℕ)
    → Managed w
    → n < w.mgr.used
    → Sound fuel (w.read_q (w.mgr.slot n))
    → Sound fuel (w.write_q (w.mgr.slot n))
    → Yields (Deleted w n) (conn_mgr_del_conn fuel w (w.mgr.slot n))
unfolding conn_mgr_del_conn to_size
conn_mgr_del_conn-Deleted fuel w n m inside reads writes =
    let c = w.mgr.slot n in
    let real : c ≢ null = m.real n (omega (arith, inside, m.fits)) in
    let a_conn : (c == null) ≡ false = ground (arith, real) in
    let small : n % size_mod ≡ n = omega (arith, inside, m.fits, m.small) in
    let last : (w.mgr.used + (size_mod - 1)) % size_mod ≡ w.mgr.used - 1 =
      omega (arith, inside, m.fits, m.small) in
    let guards : (w.mgr.used == 0 || leb w.mgr.size n) ≡ false = ground (arith, inside, m.fits) in
    let taken : eqb_ℤ (w.ndx c) (negsuc 0) ≡ false = ground (arith, m.in_use n inside) in
    rw (a_conn, taken, m.in_use n inside, small, last, guards)
      (Yields-if (n == w.mgr.used - 1)
        (λ e.
          Yields-bind
            (conn_reset-WasReset fuel (record w { ndx = update w.ndx c (negsuc 0) }) c real reads
              writes)
            λ v r.
              yields
                (last-Deleted w v n m (ground (arith, inside)) r (w.mgr.used - 1) (ground arith)))
        (λ ne.
          Yields-map (conn_reset-WasReset fuel (swap_last w n c) c real reads writes)
            λ v r. swapped-Deleted w v n m (ground (arith, inside)) r))
