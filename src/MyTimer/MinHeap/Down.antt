-- ===== src/MyTimer/MinHeap/Down.antt =====
-- `min_heap_shift_down_`
use native.Mathlib.Decide.{dec_lt}
use donkeyji.Prelude.{
  ℕ, zero, suc, ◌+◌, ◌-◌, ◌*◌, ◌%◌, ◌<◌, ◌≤◌, ◌≡◌, ◌⊎◌, inl, inr, true, false, refl, Bool-cases,
  arith, leb, ◌==◌,
}
use donkeyji.Prelude.Exec.{Yields, yields, Yields-bind, Yields-if}
use donkeyji.MyTimer.TimeVal.{TimeVal, Le-refl, Le-trans}
use donkeyji.MyTimer.MinHeap.{
  MinHeap, u32_mod, min_heap_elem_greater, smaller_child, shift_down_loop, min_heap_shift_down_,
}
use donkeyji.MyTimer.MinHeap.Order.{
  half, load-ok, place-ok, placed, LeAt, HasHole, BelowHole, Filled, greater-true, greater-false,
  moved-back, moved-apart, moved-Filled,
}
use donkeyji.MyTimer.MinHeap.Up.{min_heap_shift_up_-Filled}

module _ (timeout : ℕ → TimeVal) where
  -- `child` is the child of the hole that is no later than the other
  record IsSmallerChild (s : MinHeap) (hole child : ℕ) : Type 0 where
    inside : child < s.n
    child_of : (child ≡ 2 * hole + 1) ⊎ (child ≡ 2 * hole + 2)
    least : (c : ℕ) → 0 < c → c < s.n → half c ≡ hole → LeAt timeout (s.p child) (s.p c)

  module _ (s : MinHeap) (hole e : ℕ) (h : HasHole timeout s hole e) where
    smaller-left :
        2 * hole + 2 ≤ s.n
        → min_heap_elem_greater timeout (s.p (2 * hole + 2)) (s.p (2 * hole + 1)) ≡ true
        → IsSmallerChild s hole (2 * hole + 1)
    smaller-left fits gt = record {
      inside = omega arith;
      child_of = inl refl;
      least = λ c p q u. elim (dec_lt (2 * hole + 1) c) [
        | yes r ↦
            let it : c ≡ 2 * hole + 2 = omega arith in
            rw it (greater-true timeout (s.p (2 * hole + 2)) (s.p (2 * hole + 1)) gt)
        | no r ↦
            let it : c ≡ 2 * hole + 1 = omega arith in
            rw it (Le-refl (timeout (s.p (2 * hole + 1))))
      ];
    }

    smaller-right :
        2 * hole + 2 < s.n
        → min_heap_elem_greater timeout (s.p (2 * hole + 2)) (s.p (2 * hole + 1)) ≡ false
        → IsSmallerChild s hole (2 * hole + 2)
    smaller-right fits le = record {
      inside = omega arith;
      child_of = inr refl;
      least = λ c p q u. elim (dec_lt (2 * hole + 1) c) [
        | yes r ↦
            let it : c ≡ 2 * hole + 2 = omega arith in
            rw it (Le-refl (timeout (s.p (2 * hole + 2))))
        | no r ↦
            let it : c ≡ 2 * hole + 1 = omega arith in
            rw it (greater-false timeout (s.p (2 * hole + 2)) (s.p (2 * hole + 1)) le)
      ];
    }

    smaller_child-IsSmallerChild :
        2 * (hole + 1) ≤ s.n
        → Yields (IsSmallerChild s hole) (smaller_child timeout s (2 * (hole + 1) % u32_mod))
    unfolding smaller_child
    smaller_child-IsSmallerChild fits =
        let right : 2 * (hole + 1) % u32_mod ≡ 2 * hole + 2 = omega (arith, h.small) in
        let left : (2 * hole + 2 + (u32_mod - 1)) % u32_mod ≡ 2 * hole + 1 =
          omega (arith, h.small) in
        rw (right, left)
          (Yields-if (2 * hole + 2 == s.n)
            (λ last. yields (record {
              inside = ground arith;
              child_of = inl refl;
              least = λ c p q u.
                  let only : c ≡ 2 * hole + 1 = ground arith in
                  rw only (Le-refl (timeout (s.p (2 * hole + 1))));
            }))
            (λ both.
              rw
                (
                  load-ok s (2 * hole + 2) (ground (arith, h.room)),
                  load-ok s (2 * hole + 1) (omega (arith, h.room)),
                )
                (elim (Bool-cases
                  (min_heap_elem_greater timeout (s.p (2 * hole + 2)) (s.p (2 * hole + 1)))) [
                    | inl gt ↦ rw gt (yields (smaller-left (omega arith) gt))
                    | inr le ↦ rw le (yields (smaller-right (ground arith) le))
                  ])))

    module _ (child : ℕ) (is : IsSmallerChild s hole child) where
      sunk-HasHole : HasHole timeout (placed s hole (s.p child)) child e
      sunk-HasHole = record {
        inside = is.inside;
        room = h.room;
        small = h.small;
        back = moved-back timeout s hole child e h is.inside (omega (arith, is.child_of));
        apart = moved-apart timeout s hole child e h is.inside (omega (arith, is.child_of));
        edges = λ c p q u v. ground (arith, h.edges c, h.bridged child, is.least c, is.child_of);
        bridged = λ c p q u v. ground (arith, h.edges c, is.child_of);
      }

      settled-BelowHole : LeAt timeout e (s.p child) → BelowHole timeout s hole e
      settled-BelowHole le c p q u =
          Le-trans (timeout e) (timeout (s.p child)) (timeout (s.p c)) le (is.least c p q u)

  shift_down_loop-Filled :
      (k : ℕ) (s : MinHeap) (hole e : ℕ)
      → s.n - hole < k
      → HasHole timeout s hole e
      → Yields (Filled timeout s hole e) (shift_down_loop timeout k s hole e)
  unfolding shift_down_loop
  shift_down_loop-Filled zero s hole e f h = absurd (omega arith)
  shift_down_loop-Filled (suc k) s hole e f h =
      Yields-if (leb (2 * (hole + 1) % u32_mod) s.n)
        (λ more.
          Yields-bind (smaller_child-IsSmallerChild s hole e h (ground (arith, h.inside, h.small)))
            λ child is.
              rw
                (
                  load-ok s child (omega (arith, is.inside, h.room)),
                  place-ok s hole (s.p child) (omega (arith, h.inside, h.room)),
                )
                (Yields-if (min_heap_elem_greater timeout e (s.p child))
                  (λ _.
                    moved-Filled timeout s hole child e h is.inside (omega (arith, is.child_of)) (
                      shift_down_loop-Filled k (placed s hole (s.p child)) child e
                        (omega (arith, is.child_of, is.inside)) (sunk-HasHole s hole e h child is)))
                  (λ le. min_heap_shift_up_-Filled timeout s hole e h (
                    settled-BelowHole s hole e h child is
                      (greater-false timeout e (s.p child) le)))))
        (λ none_left.
          min_heap_shift_up_-Filled timeout s hole e h
            (λ c p q u. absurd (ground (arith, h.inside, h.small))))

  -- If all but the hole is in order, `min_heap_shift_down_` ends, stays in the array, and makes a valid
  -- heap of the other entries and `e`, wherever among them `e` belongs.
  pub min_heap_shift_down_-Filled :
      (s : MinHeap) (hole e : ℕ)
      → HasHole timeout s hole e
      → Yields (Filled timeout s hole e) (min_heap_shift_down_ timeout s hole e)
  unfolding min_heap_shift_down_
  min_heap_shift_down_-Filled s hole e h = shift_down_loop-Filled (s.n + 1) s hole e (omega arith) h
