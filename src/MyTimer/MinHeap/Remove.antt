-- ===== src/MyTimer/MinHeap/Remove.antt =====
-- `min_heap_erase` and `min_heap_pop`
use donkeyji.Prelude.{
  ℕ, suc, ◌+◌, ◌-◌, ◌*◌, ◌%◌, ◌<◌, ◌≡◌, refl, inl, inr, true, false, ◌&&◌, not, Option, none, some,
  arith, leb, ◌==◌, Bool-cases,
}
use native.Mathlib.Numerals.{add-one}
use native.Mathlib.Decide.{dec_lt}
use donkeyji.Prelude.Exec.{ok, Yields, yields, Yields-bind, Yields-map, Yields-if}
use donkeyji.MyTimer.TimeVal.{TimeVal, Le-trans}
use donkeyji.MyTimer.MinHeap.{
  MinHeap, u32_mod, no_idx, min_heap_elem_greater, min_heap_elem_init, min_heap_pop, min_heap_erase,
  shift_down_loop, shift_up_loop, min_heap_shift_up_, min_heap_shift_down_,
}
use donkeyji.MyTimer.MinHeap.Order.{
  half, parent_of-eq-half, in_heap, load-ok, place-ok, placed, LeAt, IsValid, HasHole, Filled,
}
use donkeyji.MyTimer.MinHeap.Push.{root-LeAt}
use donkeyji.MyTimer.MinHeap.Down.{min_heap_shift_down_-Filled}

module _ (timeout : ℕ → TimeVal) where
  -- what taking the timer `e` out of a heap does: `t` is a valid heap of the others, `e` knows that it
  -- is in no heap, and the timers that were not in the heap keep their positions
  pub record Removed (s : MinHeap) (e : ℕ) (t : MinHeap) : Type 0 where
    pub valid : IsValid timeout t
    pub members : (x : ℕ) → in_heap t x ≡ (in_heap s x && not (x == e))
    pub size : t.n + 1 ≡ s.n
    pub alloc : t.a ≡ s.a
    pub marked : t.idx e ≡ no_idx
    pub frame : (x : ℕ) → in_heap s x ≡ false → t.idx x ≡ s.idx x

  module _ (s : MinHeap) (e m : ℕ) (v : IsValid timeout s) (holds : in_heap s e ≡ true)
      (size : s.n ≡ suc m) where
    abbrev cut : MinHeap
    cut = record s { n = m }

    -- the last entry fills the hole that `e` leaves
    cut-HasHole : s.idx e < m → HasHole timeout cut (s.idx e) (s.p m)
    cut-HasHole inner = record {
      inside = inner;
      room = omega (arith, v.room);
      small = omega (arith, v.small);
      back = λ i p q. v.back i (omega arith);
      apart = λ i p q same. ground (arith, v.back i, v.back m);
      edges = λ c p q u w. v.edges c p (omega arith);
      bridged = λ c p q u w. ground (
        arith,
        v.edges c,
        v.edges (s.idx e),
        Le-trans (timeout (s.p (half (s.idx e)))) (timeout (s.p (s.idx e))) (timeout (s.p c)),
      );
    }

    Filled-Removed :
        s.idx e < m
        → (t : MinHeap) → Filled timeout cut (s.idx e) (s.p m) t
        → Removed s e (min_heap_elem_init t e)
    unfolding min_heap_elem_init
    Filled-Removed inner t f = record {
      valid = record {
        room = f.valid.room;
        small = f.valid.small;
        back = λ i p. ground (arith, f.valid.back i, f.members e, v.back m);
        edges = f.valid.edges;
      };
      members = λ x. ground (arith, f.members x, f.size, f.valid.small, v.back m, v.back (s.idx x));
      size = omega (arith, f.size);
      alloc = f.alloc;
      marked = ground arith;
      frame = λ x o. ground (arith, f.frame x, v.back m);
    }

    -- without the last entry nothing moves
    last_stays : min_heap_shift_down_ timeout cut m (s.p m) ≡ ok (placed cut m (s.p m))
    unfolding min_heap_shift_down_ shift_down_loop min_heap_shift_up_ shift_up_loop
        min_heap_elem_greater
    last_stays =
        let none_below : leb (2 * (m + 1) % u32_mod) m ≡ false = ground (arith, v.small) in
        let there = place-ok cut m (s.p m) (omega (arith, v.room)) in
        rw (add-one m, none_below, min_heap_shift_up_, add-one m, there)
          (elim (Bool-cases (m == 0)) [
            | inl root ↦ rw root
            | inr inner ↦
                let pos : 0 < m = ground arith in
                rw (
                  inner,
                  parent_of-eq-half m pos (omega (arith, v.small)),
                  load-ok cut (half m) (omega (arith, v.room)),
                  v.edges m pos (omega arith),
                )
          ])

    last-Removed : s.idx e ≡ m → Removed s e (min_heap_elem_init (placed cut m (s.p m)) e)
    unfolding min_heap_elem_init
    last-Removed last = record {
      valid = record {
        room = omega (arith, v.room);
        small = omega (arith, v.small);
        back = λ i p. ground (arith, v.back i, v.back m);
        edges = λ c p q. ground (arith, v.edges c);
      };
      members = λ x. ground (arith, v.small, v.back m);
      size = omega arith;
      alloc = refl;
      marked = ground arith;
      frame = λ x o. ground (arith, v.back m);
    }

    -- the common part of `min_heap_pop` and `min_heap_erase`
    cut-Removed :
        Yields
          (λ t. Removed s e (min_heap_elem_init t e))
          (min_heap_shift_down_ timeout cut (s.idx e) (s.p m))
    cut-Removed = elim (dec_lt (s.idx e) m) [
      | yes inner ↦
          Yields-map (min_heap_shift_down_-Filled timeout cut (s.idx e) (s.p m) (cut-HasHole inner))
            (Filled-Removed inner)
      | no outer ↦
          let last : s.idx e ≡ m = ground arith in
          rw (last, last_stays) (yields (last-Removed last))
    ]

  -- `min_heap_erase` of a timer that the valid heap holds ends inside the array and succeeds; it
  -- removes exactly that timer, and the heap stays valid
  pub min_heap_erase-Removed :
      (s : MinHeap) (e : ℕ)
      → IsValid timeout s
      → in_heap s e ≡ true
      → Yields (λ (done, t). (done ≡ true) × Removed s e t) (min_heap_erase timeout s e)
  unfolding min_heap_erase
  min_heap_erase-Removed s e v holds =
      let m = s.n - 1 in
      let size : s.n ≡ suc m = ground arith in
      let some_idx : (s.idx e == no_idx) ≡ false = ground (arith, v.small) in
      let less : (s.n + (u32_mod - 1)) % u32_mod ≡ m = omega (arith, v.small, size) in
      rw (some_idx, less, load-ok (record s { n = m }) m (omega (arith, v.room)))
        (Yields-bind (cut-Removed s e m v holds size) λ t r. yields (refl, r))

  -- what `min_heap_pop` gives: null on an empty heap, which stays as it is, else a timer that is no
  -- later than any in the heap, and a valid heap of the others
  abbrev pub Popped : MinHeap → Option ℕ × MinHeap → Type 0
  Popped s (none, t) = (s.n ≡ 0) × (t ≡ s)
  Popped s (some e, t) =
      (in_heap s e ≡ true) × ((x : ℕ) → in_heap s x ≡ true → LeAt timeout e x) × Removed s e t

  -- `min_heap_pop` of a valid heap ends inside the array. It gives null on an empty heap, which stays
  -- as it is, else a timer of the heap that is no later than any other, and leaves a valid heap of
  -- exactly the others.
  pub min_heap_pop-Popped :
      (s : MinHeap) → IsValid timeout s → Yields (Popped s) (min_heap_pop timeout s)
  unfolding min_heap_pop
  min_heap_pop-Popped s v =
      Yields-if (s.n == 0) (λ empty. yields (ground arith, refl))
        (λ more.
          let m = s.n - 1 in
          let size : s.n ≡ suc m = ground arith in
          let top : in_heap s (s.p 0) ≡ true = ground (arith, v.back 0) in
          let root : s.idx (s.p 0) ≡ 0 = v.back 0 (omega arith) in
          rw
            (
              load-ok s 0 (omega (arith, v.room)),
              load-ok (record s { n = m }) m (omega (arith, v.room)),
            )
            (Yields-bind (rw root at (cut-Removed s (s.p 0) m v top size))
              λ t r. yields (top, root-LeAt timeout s v, r)))
