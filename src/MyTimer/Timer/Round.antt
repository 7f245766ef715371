-- ===== src/MyTimer/Timer/Round.antt =====
-- `timer_loop`
use donkeyji.Prelude.{
  ℕ, ◌≡◌, refl, true, false, ◌&&◌, not, Option, none, some, List, [], ◌∷◌, arith, Bool-cases, inl,
  inr,
}
use mathlib.Core.List.{append-nil}
use donkeyji.Prelude.Exec.{ok, Yields, yields, Yields-map, Yields-bind}
use donkeyji.Prelude.Chain.{has}
use donkeyji.MyTimer.TimeVal.{TimeVal, Le, IsNormal, timer_gt, util_timersub}
use donkeyji.MyTimer.MinHeap.Order.{in_heap}
use donkeyji.MyTimer.MinHeap.Push.{IsTop, min_heap_top-IsTop}
use donkeyji.MyTimer.ActiveList.Chain.{Holds}
use donkeyji.MyTimer.Timer.{Pending, Timers, time_zero, timer_get_next_timeout, serve}
use donkeyji.MyTimer.Timer.Update.{IsValidPending, timer_update-Elapsed}
use donkeyji.MyTimer.Timer.Expire.{IsApart, LatestFirst, timer_process_timeout-Expired}
use donkeyji.MyTimer.Timer.Fire.{call_all, timer_process_actived-Fired}

-- the timeout to wait for: none if no timer waits, else one of a timer that waits, and no later
-- than any other
pub data IsNext (s : Pending) : Option TimeVal → Type 0 where
  idle : ((x : ℕ) → in_heap s.heap x ≡ false) → IsNext s none
  due :
      (x : ℕ)
      → in_heap s.heap x ≡ true
      → ((y : ℕ) → in_heap s.heap y ≡ true → Le (s.timeout x) (s.timeout y))
      → IsNext s (some (s.timeout x))

-- `timer_get_next_timeout`, on a valid heap, gives no timeout if the heap is empty, else the timeout
-- of a timer in the heap, which is no later than that of any other
pub timer_get_next_timeout-IsNext :
    (s : Pending) → IsValidPending s → Yields (IsNext s) (timer_get_next_timeout s)
unfolding timer_get_next_timeout
timer_get_next_timeout-IsNext s v =
    Yields-bind (min_heap_top-IsTop s.timeout s.heap v) λ top t. next top t
  where
    next :
        (top : Option ℕ)
        → IsTop s.timeout s.heap top
        → Yields (IsNext s) (elim top [ none ↦ ok none | some t ↦ ok (some (s.timeout t)) ])
    next none t = yields (idle λ x. ground arith)
    next (some x) t = yields (due x t.0 t.2)

-- callbacks that return, one after the other
abbrev pub run_all : (ℕ → Pending → Pending) → List ℕ → Pending → Pending
run_all f [] s = s
run_all f (x ∷ xs) s = run_all f xs (f x s)

call_all-run_all :
    (f : ℕ → Pending → Pending) (xs : List ℕ) (s : Pending)
    → call_all (λ x r. ok (f x r)) xs s ≡ ok (run_all f xs s)
call_all-run_all f [] s = refl
call_all-run_all f (x ∷ xs) s = call_all-run_all f xs (f x s)

-- A round with `delta` passed: the timers `ys` that had at most `delta` left leave the heap, and
-- their callbacks run on `p`, which has the other timers, all with `delta` less.
pub record Served (f : ℕ → Pending → Pending) (s : Pending) (delta : TimeVal) (t : Timers)
    : Type 0 where
  pub called : List ℕ
  pub p : Pending
  pub valid : IsValidPending p
  pub chosen :
      (x : ℕ)
      → has x called
        ≡ (in_heap s.heap x && not (timer_gt (util_timersub (s.timeout x) delta) time_zero))
  pub order : LatestFirst p.timeout called
  pub left : (x : ℕ) → in_heap p.heap x ≡ (in_heap s.heap x && not (has x called))
  pub shifted : (x : ℕ) → in_heap s.heap x ≡ true → p.timeout x ≡ util_timersub (s.timeout x) delta
  pub ran : t.pending ≡ run_all f called p
  pub emptied : Holds t.active []

-- A round of `timer_loop` with nothing in the list of expired timers ends, if the heap is valid, its
-- times and the clock are normal, and callbacks return. It calls the callbacks of exactly the timers
-- that had at most the passed time left, latest first, with those timers out of the heap and the time
-- taken off; the list is empty again.
pub serve-Served :
    (f : ℕ → Pending → Pending) (s : Timers) (start end : TimeVal)
    → IsApart s []
    → ((x : ℕ) → in_heap s.pending.heap x ≡ true → IsNormal (s.pending.timeout x))
    → IsNormal start
    → IsNormal end
    → Yields (Served f s.pending (util_timersub end start)) (serve (λ x r. ok (f x r)) start end s)
unfolding serve
serve-Served f s start end a normal ns ne =
    Yields-bind (timer_update-Elapsed s.pending start end a.valid normal ns ne) λ p e.
      Yields-bind
        (timer_process_timeout-Expired (record s { pending = p }) []
          (record {
            valid = e.valid;
            listed = a.listed;
            nodes = rw e.same a.nodes;
            apart = λ x m. refl;
          }))
        λ t (ys, x).
          let same : (y : ℕ) → in_heap p.heap y ≡ in_heap s.pending.heap y = λ y. rw e.same in
          let now : (y : ℕ)
              → in_heap s.pending.heap y ≡ true
              → p.timeout y ≡ util_timersub (s.pending.timeout y) (util_timersub end start) =
            λ y m. rw (e.shifted y, m) in
          Yields-map
            (timer_process_actived-Fired (λ x r. ok (f x r)) t ys (run_all f ys t.pending)
              (rw (append-nil ys) at x.apart.listed) (call_all-run_all f ys t.pending))
            λ u (ran, emptied). record {
              called = ys;
              p = t.pending;
              valid = x.apart.valid;
              chosen = λ y.
                  rw (x.moved y, same y)
                    (elim (Bool-cases (in_heap s.pending.heap y)) [
                      | inl m ↦ rw (m, now y m)
                      | inr m ↦ rw m
                    ]);
              order = rw x.timeouts x.order;
              left = λ y. rw (x.left y, x.moved y, same y) (ground arith);
              shifted = λ y m. rw x.timeouts (now y m);
              ran = ran;
              emptied = emptied;
            }
