-- ===== src/MyTimer/MinHeap/Push.antt =====
-- `min_heap_reserve`, `min_heap_push` and `min_heap_top`
use donkeyji.Prelude.{
  ℕ, zero, suc, ◌+◌, ◌%◌, ◌^◌, ◌<◌, ◌≤◌, ◌≡◌, ◌≢◌, refl, sym, ◌∙◌, true, false, ◌&&◌, ◌||◌, Bool,
  Option, none, some, arith, leb, ◌==◌, if◌then◌else◌,
}
use donkeyji.Prelude.Exec.{Yields, yields, Yields-bind, Yields-if}
use donkeyji.MyTimer.TimeVal.{TimeVal, Le-trans, Le-refl}
use donkeyji.MyTimer.MinHeap.{MinHeap, u32_mod, min_heap_top, min_heap_reserve, min_heap_push}
use donkeyji.MyTimer.MinHeap.Order.{half, in_heap, load-ok, LeAt, IsValid, HasHole}
use donkeyji.MyTimer.MinHeap.Up.{min_heap_shift_up_-Filled}

abbrev reserved : Bool → MinHeap → ℕ → Bool
reserved granted s n = granted || leb n s.a

-- `min_heap_reserve` changes at most `a`. It fails only if more is needed and `realloc` has nothing,
-- and then changes nothing; if it succeeds, `n` entries fit, and `a` has not shrunk.
pub min_heap_reserve_lem :
    (granted : Bool) (s : MinHeap) (n : ℕ)
    → n < u32_mod
    → let (done, r) = min_heap_reserve granted s n in
      (done ≡ reserved granted s n)
      × (r ≡ record s { a = r.a })
      × (s.a ≤ r.a)
      × (done ≡ true → n ≤ r.a)
      × (done ≡ false → r.a ≡ s.a)
unfolding min_heap_reserve
min_heap_reserve_lem granted s n h =
    (ground arith, ground arith, ground arith, λ e. ground arith, λ e. ground arith)

Σ_pair : {p : Bool × MinHeap} {b : Bool} {s : MinHeap} → p.0 ≡ b → p.1 ≡ s → p ≡ (b, s)
Σ_pair e f = λ i. (e i, f i)

min_heap_reserve-eq :
    (granted : Bool) (s : MinHeap) (n : ℕ)
    → n < u32_mod
    → min_heap_reserve granted s n
      ≡ (reserved granted s n, record s { a = (min_heap_reserve granted s n).1.a })
min_heap_reserve-eq granted s n h =
    let lem = min_heap_reserve_lem granted s n h in Σ_pair lem.0 lem.1

module _ (timeout : ℕ → TimeVal) where
  root_least_below :
      (k : ℕ) (s : MinHeap) (i : ℕ)
      → IsValid timeout s
      → i < k
      → i < s.n
      → LeAt timeout (s.p 0) (s.p i)
  root_least_below zero s i v f p = absurd (omega arith)
  root_least_below (suc k) s zero v f p = Le-refl (timeout (s.p 0))
  root_least_below (suc k) s (suc i) v f p =
      Le-trans (timeout (s.p 0)) (timeout (s.p (half (suc i)))) (timeout (s.p (suc i)))
        (root_least_below k s (half (suc i)) v (omega arith) (omega arith))
        (v.edges (suc i) (omega arith) p)

  pub root-LeAt :
      (s : MinHeap) → IsValid timeout s → (x : ℕ) → in_heap s x ≡ true → LeAt timeout (s.p 0) x
  root-LeAt s v x m = ground (arith, root_least_below (suc (s.idx x)) s (s.idx x) v)

  -- what `min_heap_top` gives: null on an empty heap, else a timer of the heap that is no later than any
  abbrev pub IsTop : MinHeap → Option ℕ → Type 0
  IsTop s none = s.n ≡ 0
  IsTop s (some e) =
      (in_heap s e ≡ true) × (e ≡ s.p 0) × ((x : ℕ) → in_heap s x ≡ true → LeAt timeout e x)

  -- `min_heap_top` of a valid heap is null exactly if the heap is empty, else a timer of the heap that
  -- is no later than any other
  pub min_heap_top-IsTop : (s : MinHeap) → IsValid timeout s → Yields (IsTop s) (min_heap_top s)
  unfolding min_heap_top
  min_heap_top-IsTop s v =
      Yields-if (s.n == 0) (λ empty. yields (ground arith))
        (λ some_left.
          rw (load-ok s 0 (ground (arith, v.room)))
            (yields (ground (arith, v.back 0), refl, root-LeAt s v)))

  not_in_heap :
      (s : MinHeap) (e i : ℕ) → IsValid timeout s → in_heap s e ≡ false → i < s.n → s.p i ≢ e
  not_in_heap s e i v out h = λ same. ground (arith, v.back i)

  -- what `min_heap_push` does: if it has the room, `t` is a valid heap of the timers of `s` and `e`,
  -- and the timers that are in neither keep their positions; if not, the heap is unchanged
  pub record Pushed (granted : Bool) (s : MinHeap) (e : ℕ) (r : Bool × MinHeap) : Type 0 where
    pub done : r.0 ≡ (granted || leb (s.n + 1) s.a)
    pub valid : IsValid timeout r.1
    pub members : (x : ℕ) → in_heap r.1 x ≡ (r.0 && x == e || in_heap s x)
    pub size : r.1.n ≡ (if r.0 then s.n + 1 else s.n)
    pub frame : (x : ℕ) → x ≢ e → in_heap s x ≡ false → r.1.idx x ≡ s.idx x

  grown-HasHole :
      (s : MinHeap) (e a : ℕ)
      → IsValid timeout s
      → s.n + 1 < 2 ^ 31
      → s.n + 1 ≤ a
      → in_heap s e ≡ false
      → HasHole timeout (record s { a = a; n = s.n + 1 }) s.n e
  grown-HasHole s e a v small fits out = record {
    inside = omega arith;
    room = fits;
    small = small;
    back = λ i p q. v.back i (omega arith);
    apart = λ i p q. not_in_heap s e i v out (omega arith);
    edges = λ c p q u w. v.edges c p (omega arith);
    bridged = λ c p q u w. absurd (omega arith);
  }

  -- `min_heap_push` of a timer that is not in the valid heap, which holds fewer than 2^31 - 1, ends
  -- inside the array. It succeeds if the memory is granted or is there already, and the heap is then a
  -- valid heap of the timers it had and the new one; else it fails, and its entries are unchanged.
  pub min_heap_push-Pushed :
      (granted : Bool) (s : MinHeap) (e : ℕ)
      → IsValid timeout s
      → s.n + 1 < 2 ^ 31
      → in_heap s e ≡ false
      → Yields (Pushed granted s e) (min_heap_push timeout granted s e)
  unfolding min_heap_push
  min_heap_push-Pushed granted s e v small out =
      let lem = min_heap_reserve_lem granted s (s.n + 1) (omega arith) in
      let next : (s.n + 1) % u32_mod ≡ s.n + 1 = omega arith in
      let whole = min_heap_reserve-eq granted s (s.n + 1) (omega arith) in
      let a = (min_heap_reserve granted s (s.n + 1)).1.a in
      let fits : reserved granted s (s.n + 1) ≡ true → s.n + 1 ≤ a = λ e. lem.3 (lem.0 ∙ e) in
      let kept : reserved granted s (s.n + 1) ≡ false → a ≡ s.a = λ e. lem.4 (lem.0 ∙ e) in
      rw (next, whole, next)
        (Yields-if (reserved granted s (s.n + 1))
          (λ room.
            Yields-bind
              (min_heap_shift_up_-Filled timeout (record s { a = a; n = s.n + 1 }) s.n e
                (grown-HasHole s e a v small (fits room) out) (λ c p q u. absurd (omega arith)))
              λ t f. yields (record {
                done = sym room;
                valid = f.valid;
                members = λ x. ground (arith, f.members x);
                size = f.size;
                frame = λ x ne o. f.frame x (ground arith);
              }))
          (λ none_left. yields (record {
            done = sym none_left;
            valid = record {
              room = omega (arith, kept none_left, v.room);
              small = v.small;
              back = v.back;
              edges = v.edges;
            };
            members = λ x. refl;
            size = refl;
            frame = λ x ne o. refl;
          })))
