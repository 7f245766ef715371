-- ===== src/MyTimer/ActiveList/Insert.antt =====
-- `list_new`, `list_insert` and `list_free`
use donkeyji.Prelude.{
  ℕ, zero, suc, ◌<◌, ◌≡◌, ◌≢◌, refl, true, false, some, List, [], ◌∷◌, arith, ◌==◌, update, length,
}
use donkeyji.Prelude.Int.{pos, ◌+ℤ◌, ◌-ℤ◌}
use donkeyji.Prelude.Exec.{ok, Yields, yields}
use donkeyji.MyTimer.ActiveList.{ListState, list_new, list_insert, free_loop, list_free}
use donkeyji.MyTimer.ActiveList.Chain.{Holds}
use donkeyji.Prelude.Chain.{has, Chain, Chain-update, null}

pub suc-eq-+ℤ : (n : ℕ) → pos n +ℤ pos 1 ≡ pos (suc n)
unfolding ◌+ℤ◌
suc-eq-+ℤ n = ground arith

pub pred-eq--ℤ : (n : ℕ) → pos (suc n) -ℤ pos 1 ≡ pos n
unfolding ◌-ℤ◌
pred-eq--ℤ n = ground arith

pub list_new-Holds : (s : ListState) → Holds (list_new true s) []
unfolding list_new
list_new-Holds s = record { first = null; count = pos 0; list = refl; chain = refl; size = refl }

-- `list_insert` of a node that is not NULL and not in the list succeeds and puts it first; it writes
-- no link `prev`
pub list_insert-Holds :
    (s : ListState) (t : ℕ) (xs : List ℕ)
    → Holds s xs
    → t ≢ null
    → has t xs ≡ false
    → Yields
        (λ (done, s'). (done ≡ true) × Holds s' (t ∷ xs) × (s'.prev ≡ s.prev))
        (list_insert s t)
unfolding list_insert
list_insert-Holds s t xs h ne out =
    let some_node : (t == null) ≡ false = ground arith in
    rw (h.list, list_insert, some_node)
      (yields (
        refl,
        record {
          first = t;
          count = h.count +ℤ pos 1;
          list = refl;
          chain = (refl, ne, out, rw here (Chain-update s.next h.first xs t h.first h.chain out));
          size = rw h.size (suc-eq-+ℤ (length xs));
        },
        refl,
      ))
  where
    here : update s.next t h.first t ≡ h.first
    here = ground arith

free_loop_lem :
    (next : ℕ → ℕ) (k p : ℕ) (xs : List ℕ)
    → Chain next p xs
    → length xs < k
    → free_loop next k p (pos (length xs)) ≡ ok (xs, pos 0)
unfolding free_loop
free_loop_lem next zero p xs c f = absurd (omega arith)
free_loop_lem next (suc k) p [] c f = ground arith
free_loop_lem next (suc k) p (x ∷ xs) c f =
    let some_node : (x == null) ≡ false = ground (arith, c.1) in
    rw (c.0, some_node, pred-eq--ℤ (length xs), free_loop_lem next k (next x) xs c.3 (omega arith))

-- `list_free` frees every node of the list once, in order, and counts them down to 0; fuel above the
-- number of nodes is enough
pub list_free_lem :
    (fuel : ℕ) (s : ListState) (xs : List ℕ)
    → Holds s xs
    → length xs < fuel
    → Yields
        (λ (freed, t).
          (freed ≡ xs)
          × ((p : ℕ) × (t.list ≡ some (record { head = p; len = pos 0 })))
          × (t.next ≡ s.next))
        (list_free fuel s)
unfolding list_free
list_free_lem fuel s xs h f =
    rw (h.list, list_free, h.size, free_loop_lem s.next fuel h.first xs h.chain f)
      (yields (refl, (h.first, refl), refl))
