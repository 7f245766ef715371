-- ===== src/MyTimer/MinHeap/Order.antt =====
-- The order and the positions of a heap, and of a heap with a hole into which a timer is to go.
use donkeyji.Prelude.{
  ℕ, ◌-◌, ◌/◌, ◌^◌, ◌<◌, ◌≤◌, ◌≡◌, ◌≢◌, refl, Bool, true, false, ◌&&◌, ◌||◌, not, arith, ltb, ◌==◌,
  update,
}
use donkeyji.Prelude.Exec.{Exec, ok, Yields, Yields-map}
use donkeyji.MyTimer.TimeVal.{TimeVal, Le, Le_of_gt}
use donkeyji.MyTimer.MinHeap.{MinHeap, u32_mod, load, place, parent_of, min_heap_elem_greater}

-- the parent of a child, as a number
abbrev pub half : ℕ → ℕ
half c = (c - 1) / 2

pub parent_of-eq-half : (c : ℕ) → 0 < c → c < u32_mod → parent_of c ≡ half c
unfolding parent_of
parent_of-eq-half c p q = omega arith

-- the heap holds the timer `x`, at the position that the timer knows
abbrev pub in_heap : MinHeap → ℕ → Bool
in_heap s x = ltb (s.idx x) s.n && (s.p (s.idx x) == x)

-- the same, not counting the entry at the hole
abbrev pub in_rest : MinHeap → ℕ → ℕ → Bool
in_rest s hole x = in_heap s x && not (s.idx x == hole)

pub load-ok : (s : MinHeap) (i : ℕ) → i < s.a → load s i ≡ ok (s.p i)
unfolding load
load-ok s i h = ground arith

abbrev pub placed : MinHeap → ℕ → ℕ → MinHeap
placed s i e = record s { p = update s.p i e; idx = update s.idx e i }

pub place-ok : (s : MinHeap) (i e : ℕ) → i < s.a → place s i e ≡ ok (placed s i e)
unfolding place
place-ok s i e h = ground arith

module _ (timeout : ℕ → TimeVal) where
  abbrev pub LeAt : ℕ → ℕ → Type 0
  LeAt x y = Le (timeout x) (timeout y)

  -- the representation invariant of `min_heap_t`
  pub record IsValid (s : MinHeap) : Type 0 where
    pub room : s.n ≤ s.a
    pub small : s.n < 2 ^ 31
    pub back : (i : ℕ) → i < s.n → s.idx (s.p i) ≡ i
    pub edges : (c : ℕ) → 0 < c → c < s.n → LeAt (s.p (half c)) (s.p c)

  -- all but the entry at the hole is in order, and the timer that is to go there is not among them
  pub record HasHole (s : MinHeap) (hole e : ℕ) : Type 0 where
    pub inside : hole < s.n
    pub room : s.n ≤ s.a
    pub small : s.n < 2 ^ 31
    pub back : (i : ℕ) → i < s.n → i ≢ hole → s.idx (s.p i) ≡ i
    pub apart : (i : ℕ) → i < s.n → i ≢ hole → s.p i ≢ e
    pub edges : (c : ℕ) → 0 < c → c < s.n → c ≢ hole → half c ≢ hole → LeAt (s.p (half c)) (s.p c)
    pub bridged :
        (c : ℕ) → 0 < c → c < s.n → half c ≡ hole → 0 < hole → LeAt (s.p (half hole)) (s.p c)

  abbrev pub BelowHole : MinHeap → ℕ → ℕ → Type 0
  BelowHole s hole e = (c : ℕ) → 0 < c → c < s.n → half c ≡ hole → LeAt e (s.p c)

  -- `t` is the valid heap of the entries of `s` but the one at the hole, and of `e`
  pub record Filled (s : MinHeap) (hole e : ℕ) (t : MinHeap) : Type 0 where
    pub valid : IsValid t
    pub size : t.n ≡ s.n
    pub alloc : t.a ≡ s.a
    pub members : (x : ℕ) → in_heap t x ≡ (x == e || in_rest s hole x)
    pub frame : (x : ℕ) → (x == e || in_rest s hole x) ≡ false → t.idx x ≡ s.idx x

  pub greater-false : (x e : ℕ) → min_heap_elem_greater timeout x e ≡ false → LeAt x e
  unfolding min_heap_elem_greater
  greater-false x e h = h

  pub greater-true : (x e : ℕ) → min_heap_elem_greater timeout x e ≡ true → LeAt e x
  unfolding min_heap_elem_greater
  greater-true x e h = Le_of_gt (timeout x) (timeout e) h

  -- the timer goes to the hole: it is no earlier than the parent and no later than the children
  pub placed-Filled :
      (s : MinHeap) (hole e : ℕ)
      → HasHole s hole e
      → BelowHole s hole e
      → (0 < hole → LeAt (s.p (half hole)) e)
      → Filled s hole e (placed s hole e)
  placed-Filled s hole e h below above = record {
    valid = record {
      room = h.room;
      small = h.small;
      back = λ i p. ground (arith, h.back i, h.apart i);
      edges = λ c p q. ground (arith, h.edges c, below c);
    };
    size = refl;
    alloc = refl;
    members = λ x. ground (arith, h.inside, h.apart (s.idx x));
    frame = λ x o. ground arith;
  }

  -- an entry next to the hole moves into it, and the hole to its place
  module _ (s : MinHeap) (hole next e : ℕ) (h : HasHole s hole e) (inside : next < s.n)
      (ne : next ≢ hole) where
    pub moved-back :
        (i : ℕ)
        → i < s.n
        → i ≢ next
        → (placed s hole (s.p next)).idx ((placed s hole (s.p next)).p i) ≡ i
    moved-back i p q = ground (arith, h.back i, h.back next)

    pub moved-apart : (i : ℕ) → i < s.n → i ≢ next → (placed s hole (s.p next)).p i ≢ e
    moved-apart i p q = ground (arith, h.apart i, h.apart next)

    pub moved-members : (x : ℕ) → in_rest (placed s hole (s.p next)) next x ≡ in_rest s hole x
    moved-members x = ground (arith, h.inside, h.back next, h.back (s.idx x))

    pub moved-Filled :
        {r : Exec MinHeap}
        → Yields (Filled (placed s hole (s.p next)) next e) r
        → Yields (Filled s hole e) r
    moved-Filled run = Yields-map run λ t f. record {
      valid = f.valid;
      size = f.size;
      alloc = f.alloc;
      members = λ x. ground (arith, f.members x, moved-members x);
      frame = λ x o. ground (arith, f.frame x, moved-members x, h.back next);
    }
