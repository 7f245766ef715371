-- ===== src/MyTimer/Timer/Update.antt =====
-- `timer_add` and `timer_update`
use donkeyji.Prelude.{
  ◌≢◌, ◌||◌, ◌==◌, ◌^◌, false, ℕ, zero, suc, ◌+◌, ◌<◌, ◌≡◌, refl, Bool, true, ◌&&◌, arith, leb,
  if◌then◌else◌, update,
}
use donkeyji.Prelude.Chain.{null}
use donkeyji.MyTimer.MinHeap.Push.{min_heap_push-Pushed}
use donkeyji.Prelude.Exec.{Yields, yields, Yields-map, Yields-bind}
use donkeyji.MyTimer.TimeVal.{
  TimeVal, Le, IsNormal, util_timersub, util_timersub_mono, util_timersub-IsNormal,
}
use donkeyji.MyTimer.MinHeap.{MinHeap}
use donkeyji.MyTimer.MinHeap.Order.{half, in_heap, load-ok, IsValid}
use donkeyji.MyTimer.Timer.{Pending, timer_add, update_loop, timer_update}

abbrev pub IsValidPending : Pending → Type 0
IsValidPending s = IsValid s.timeout s.heap

-- the timers of the heap from index `i` on
abbrev from_index : MinHeap → ℕ → ℕ → Bool
from_index h i x = in_heap h x && leb i (h.idx x)

module _ (h : MinHeap) (delta : TimeVal) where
  update_loop_lem :
      (size i : ℕ) (old timeout : ℕ → TimeVal)
      → IsValid old h
      → i + size ≡ h.n
      → Yields
          (λ t.
            (x : ℕ)
            → t x ≡ (if from_index h i x then util_timersub (timeout x) delta else timeout x))
          (update_loop h delta size i timeout)
  unfolding update_loop
  update_loop_lem zero i old timeout v e = yields (λ x. ground arith)
  update_loop_lem (suc size) i old timeout v e = rw (load-ok h i (omega (arith, v.room))) (
      Yields-map
        (update_loop_lem size (i + 1) old
          (update timeout (h.p i) (util_timersub (timeout (h.p i)) delta)) v (omega arith))
        λ t at x. ground (arith, at x, v.back i))

-- the timers of the heap of `s`, and no others, have `delta` less time in `t`
pub record Elapsed (s : Pending) (delta : TimeVal) (t : Pending) : Type 0 where
  pub valid : IsValidPending t
  pub same : t.heap ≡ s.heap
  pub shifted :
      (x : ℕ)
      → t.timeout x ≡ (if in_heap s.heap x then util_timersub (s.timeout x) delta else s.timeout x)
  pub normal : (x : ℕ) → in_heap s.heap x ≡ true → IsNormal (t.timeout x)

shifted-IsValid :
    (h : MinHeap) (timeout t : ℕ → TimeVal) (delta : TimeVal)
    → IsValid timeout h
    → ((x : ℕ) → in_heap h x ≡ true → IsNormal (timeout x))
    → IsNormal delta
    → ((x : ℕ) → t x ≡ (if in_heap h x then util_timersub (timeout x) delta else timeout x))
    → IsValid t h
shifted-IsValid h timeout t delta v normal d at = record {
  room = v.room;
  small = v.small;
  back = v.back;
  edges = λ c p q. edge c p q;
}
  where
    at_index :
        (i : ℕ)
        → i < h.n
        → (in_heap h (h.p i) ≡ true) × (t (h.p i) ≡ util_timersub (timeout (h.p i)) delta)
    at_index i p = (ground (arith, v.back i), ground (arith, v.back i, at (h.p i)))

    edge : (c : ℕ) → 0 < c → c < h.n → Le (t (h.p (half c))) (t (h.p c))
    edge c p q =
        let up = at_index (half c) (omega arith) in
        let here = at_index c q in
        rw (up.1, here.1)
          (util_timersub_mono (timeout (h.p (half c))) (timeout (h.p c)) delta
            (normal (h.p (half c)) up.0) (normal (h.p c) here.0) d (v.edges c p q))

-- `timer_update`, on a valid heap of timers with normal times, between two normal times, takes the
-- time that passed off every timer in the heap, once, and off no other; the heap is the same, is
-- still valid, and its times are still normal
pub timer_update-Elapsed :
    (s : Pending) (start end : TimeVal)
    → IsValidPending s
    → ((x : ℕ) → in_heap s.heap x ≡ true → IsNormal (s.timeout x))
    → IsNormal start
    → IsNormal end
    → Yields (Elapsed s (util_timersub end start)) (timer_update s start end)
unfolding timer_update
timer_update-Elapsed s start end v normal ns ne =
    Yields-bind (update_loop_lem s.heap delta s.heap.n 0 s.timeout s.timeout v (omega arith))
      λ t at.
        let at' : (x : ℕ)
            → t x ≡ (if in_heap s.heap x then util_timersub (s.timeout x) delta else s.timeout x) =
          λ x. ground (arith, at x) in
        yields (record {
          valid = shifted-IsValid s.heap s.timeout t delta v normal nd at';
          same = refl;
          shifted = at';
          normal =
              λ x m. rw (at' x, m) (util_timersub-IsNormal (s.timeout x) delta (normal x m) nd);
        })
  where
    delta : TimeVal
    delta = util_timersub end start

    nd : IsNormal delta
    nd = util_timersub-IsNormal end start ne ns

-- what `timer_add` does: if there is room, the heap is valid and has `t` besides its timers, and `t`
-- has the timeout `tv`; the other timeouts are kept
pub record Added (s : Pending) (e : ℕ) (tv : TimeVal) (r : Bool × Pending) : Type 0 where
  pub valid : IsValidPending r.1
  pub members : (x : ℕ) → in_heap r.1.heap x ≡ (r.0 && x == e || in_heap s.heap x)
  pub set : r.1.timeout e ≡ tv
  pub kept : (x : ℕ) → x ≢ e → r.1.timeout x ≡ s.timeout x

retimed-IsValid :
    (s : Pending) (e : ℕ) (tv : TimeVal)
    → IsValidPending s
    → in_heap s.heap e ≡ false
    → IsValid (update s.timeout e tv) s.heap
retimed-IsValid s e tv v out = record {
  room = v.room;
  small = v.small;
  back = v.back;
  edges = λ c p q. edge c p q;
}
  where
    other : (i : ℕ) → i < s.heap.n → update s.timeout e tv (s.heap.p i) ≡ s.timeout (s.heap.p i)
    other i p = ground (arith, v.back i)

    edge :
        (c : ℕ)
        → 0 < c
        → c < s.heap.n
        → Le (update s.timeout e tv (s.heap.p (half c))) (update s.timeout e tv (s.heap.p c))
    edge c p q = rw (other (half c) (omega arith), other c q) (v.edges c p q)

-- `timer_add` of a timer that is not NULL and not in the valid heap, which holds fewer than 2^31 - 1,
-- sets its timeout and no other; with memory to be had it succeeds. If it succeeds the valid heap has
-- the timer besides those it had, and if not, those it had.
pub timer_add-Added :
    (granted : Bool) (s : Pending) (t : ℕ) (tv : TimeVal)
    → IsValidPending s
    → t ≢ null
    → s.heap.n + 1 < 2 ^ 31
    → in_heap s.heap t ≡ false
    → Yields
        (λ r. (r.0 ≡ (granted || leb (s.heap.n + 1) s.heap.a)) × Added s t tv r)
        (timer_add granted s t tv)
unfolding timer_add
timer_add-Added granted s t tv v ne small out =
    let some_timer : (t == null) ≡ false = ground arith in
    rw some_timer (
      Yields-bind
        (min_heap_push-Pushed (update s.timeout t tv) granted s.heap t
          (retimed-IsValid s t tv v out) small out)
        λ (done, heap) r. yields (
          r.done,
          record {
            valid = r.valid;
            members = r.members;
            set = ground arith;
            kept = λ x other. ground arith;
          },
        ))
