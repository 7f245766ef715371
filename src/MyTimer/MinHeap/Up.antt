-- ===== src/MyTimer/MinHeap/Up.antt =====
-- `min_heap_shift_up_`
use donkeyji.Prelude.{ℕ, zero, suc, ◌+◌, ◌<◌, arith, ◌==◌}
use donkeyji.Prelude.Exec.{Yields, yields, Yields-if}
use donkeyji.MyTimer.TimeVal.{TimeVal, Le-trans}
use donkeyji.MyTimer.MinHeap.{MinHeap, min_heap_elem_greater, shift_up_loop, min_heap_shift_up_}
use donkeyji.MyTimer.MinHeap.Order.{
  half, parent_of-eq-half, load-ok, place-ok, placed, LeAt, HasHole, BelowHole, Filled,
  greater-false, greater-true, placed-Filled, moved-back, moved-apart, moved-Filled,
}

module _ (timeout : ℕ → TimeVal) where
  module _ (s : MinHeap) (hole e : ℕ) (h : HasHole timeout s hole e) (pos : 0 < hole) where
    risen-HasHole : HasHole timeout (placed s hole (s.p (half hole))) (half hole) e
    risen-HasHole = record {
      inside = omega (arith, h.inside);
      room = h.room;
      small = h.small;
      back = moved-back timeout s hole (half hole) e h (omega (arith, h.inside)) (omega arith);
      apart = moved-apart timeout s hole (half hole) e h (omega (arith, h.inside)) (omega arith);
      edges = λ c p q u v. ground (arith, h.edges c, h.bridged c);
      bridged = λ c p q u v. ground (
        arith,
        h.edges c,
        h.edges (half hole),
        Le-trans (timeout (s.p (half (half hole)))) (timeout (s.p (half hole))) (timeout (s.p c)),
      );
    }

    risen-BelowHole :
        BelowHole timeout s hole e
        → LeAt timeout e (s.p (half hole))
        → BelowHole timeout (placed s hole (s.p (half hole))) (half hole) e
    risen-BelowHole below le c p q u =
        ground
          (arith, h.edges c, Le-trans (timeout e) (timeout (s.p (half hole))) (timeout (s.p c)))

  shift_up_loop-Filled :
      (k : ℕ) (s : MinHeap) (hole e : ℕ)
      → hole < k
      → HasHole timeout s hole e
      → BelowHole timeout s hole e
      → Yields (Filled timeout s hole e) (shift_up_loop timeout k s hole e)
  unfolding shift_up_loop
  shift_up_loop-Filled zero s hole e f h below = absurd (omega arith)
  shift_up_loop-Filled (suc k) s hole e f h below =
      rw (place-ok s hole e (omega (arith, h.inside, h.room))) (
        Yields-if (hole == 0)
          (λ root. yields (placed-Filled timeout s hole e h below (λ pos. absurd (ground arith))))
          (λ inner.
            let pos : 0 < hole = ground arith in
            let next : half hole < s.a = omega (arith, h.inside, h.room) in
            rw
              (
                parent_of-eq-half hole pos (omega (arith, h.inside, h.small)),
                load-ok s (half hole) next,
                place-ok s hole (s.p (half hole)) (omega (arith, h.inside, h.room)),
              )
              (Yields-if (min_heap_elem_greater timeout (s.p (half hole)) e)
                (λ gt.
                  moved-Filled timeout s hole (half hole) e h (omega (arith, h.inside))
                    (omega arith)
                    (shift_up_loop-Filled k (placed s hole (s.p (half hole))) (half hole) e
                      (omega arith) (risen-HasHole s hole e h pos)
                      (risen-BelowHole s hole e h pos below
                        (greater-true timeout (s.p (half hole)) e gt))))
                (λ le. yields (
                  placed-Filled timeout s hole e h below
                    (λ _. greater-false timeout (s.p (half hole)) e le))))))

  -- If all but the hole is in order, and `e` is no later than the entries below the hole,
  -- `min_heap_shift_up_` ends, stays in the array, and makes a valid heap of the other entries and `e`.
  pub min_heap_shift_up_-Filled :
      (s : MinHeap) (hole e : ℕ)
      → HasHole timeout s hole e
      → BelowHole timeout s hole e
      → Yields (Filled timeout s hole e) (min_heap_shift_up_ timeout s hole e)
  unfolding min_heap_shift_up_
  min_heap_shift_up_-Filled s hole e h below =
      shift_up_loop-Filled (hole + 1) s hole e (omega arith) h below
