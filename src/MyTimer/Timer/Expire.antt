-- ===== src/MyTimer/Timer/Expire.antt =====
-- `timer_process_timeout`
use mathlib.Core.List.{append_assoc}
use donkeyji.Prelude.{
  ℕ, zero, suc, ◌+◌, ◌<◌, ◌≡◌, ap, refl, Bool, true, false, ◌&&◌, not, none, some, List, [], ◌∷◌,
  ◌++◌, arith, Bool-cases, inl, inr,
}
use donkeyji.Prelude.Exec.{Yields, yields, Yields-map, Yields-bind}
use donkeyji.MyTimer.TimeVal.{TimeVal, Le, timer_gt, util_timersmaller, smaller-eq-gt, Le-trans}
use donkeyji.MyTimer.MinHeap.{MinHeap}
use donkeyji.MyTimer.MinHeap.Order.{in_heap, LeAt, IsValid}
use donkeyji.MyTimer.MinHeap.Push.{IsTop, min_heap_top-IsTop}
use donkeyji.MyTimer.MinHeap.Remove.{Removed, min_heap_erase-Removed}
use donkeyji.MyTimer.ActiveList.{ListState}
use donkeyji.MyTimer.ActiveList.Chain.{Holds}
use donkeyji.Prelude.Chain.{has, has-append, null}
use donkeyji.MyTimer.ActiveList.Insert.{list_insert-Holds}
use donkeyji.MyTimer.Timer.{Pending, Timers, time_zero, process_timeout_loop, timer_process_timeout}

-- the heap and the list are well formed and share no timer
pub record IsApart (s : Timers) (xs : List ℕ) : Type 0 where
  pub valid : IsValid s.pending.timeout s.pending.heap
  pub listed : Holds s.active xs
  pub nodes : in_heap s.pending.heap null ≡ false
  pub apart : (x : ℕ) → in_heap s.pending.heap x ≡ true → has x xs ≡ false

-- the time left to the timer is not above zero
abbrev pub is_expired : Pending → ℕ → Bool
is_expired s x = not (timer_gt (s.timeout x) time_zero)

abbrev pub LatestFirst : (ℕ → TimeVal) → List ℕ → Type 0
LatestFirst timeout [] = Unit {0}
LatestFirst timeout (y ∷ ys) =
    ((z : ℕ) → has z ys ≡ true → LeAt timeout z y) × LatestFirst timeout ys

-- `t` is `s` after the timers `ys` have moved from the heap to the front of the list
pub record Expired (s : Timers) (xs ys : List ℕ) (t : Timers) : Type 0 where
  pub timeouts : t.pending.timeout ≡ s.pending.timeout
  pub apart : IsApart t (ys ++ xs)
  pub left :
      (x : ℕ)
      → in_heap t.pending.heap x ≡ (in_heap s.pending.heap x && not (is_expired s.pending x))
  pub moved : (x : ℕ) → has x ys ≡ (in_heap s.pending.heap x && is_expired s.pending x)
  pub order : LatestFirst s.pending.timeout ys

LatestFirst-append :
    (timeout : ℕ → TimeVal) (ys : List ℕ) (e : ℕ)
    → LatestFirst timeout ys
    → ((z : ℕ) → has z ys ≡ true → LeAt timeout e z)
    → LatestFirst timeout (ys ++ (e ∷ []))
LatestFirst-append timeout [] e o first = (λ z m. cc, tt)
LatestFirst-append timeout (y ∷ ys) e o first = (
  λ z m. ground (arith, has-append z ys (e ∷ []), o.0 z, first y),
  LatestFirst-append timeout ys e o.1 (λ z m. first z (ground arith)),
)

due_now : (a : TimeVal) → util_timersmaller time_zero a ≡ false → timer_gt a time_zero ≡ false
due_now a e = rw (← smaller-eq-gt time_zero a) e

due_later :
    (a b : TimeVal) → util_timersmaller time_zero a ≡ true → Le a b → timer_gt b time_zero ≡ true
due_later a b e le = ground (arith, smaller-eq-gt time_zero a, Le-trans a b time_zero)

module _ (s : Timers) (xs : List ℕ) (i : IsApart s xs) where
  none_due :
      ((x : ℕ) → in_heap s.pending.heap x ≡ true → is_expired s.pending x ≡ false)
      → Expired s xs [] s
  none_due none_expired = record {
    timeouts = refl;
    apart = i;
    left = λ x. ground (arith, none_expired x);
    moved = λ x. ground (arith, none_expired x);
    order = tt;
  }

  -- one timer moves to the list
  module _ (ev : ℕ) (h : MinHeap) (a : ListState)
      (top : IsTop s.pending.timeout s.pending.heap (some ev))
      (due : timer_gt (s.pending.timeout ev) time_zero ≡ false)
      (r : Removed s.pending.timeout s.pending.heap ev h) where
    abbrev after : Timers
    after = record { pending = record { heap = h; timeout = s.pending.timeout }; active = a }

    after-IsApart : Holds a (ev ∷ xs) → IsApart after (ev ∷ xs)
    after-IsApart list = record {
      valid = r.valid;
      listed = list;
      nodes = ground (arith, r.members null, i.nodes);
      apart = λ x m. ground (arith, r.members x, i.apart x);
    }

    after-Expired :
        (u : Timers) (ys : List ℕ) → Expired after (ev ∷ xs) ys u → Expired s xs (ys ++ (ev ∷ [])) u
    after-Expired u ys x = record {
      timeouts = x.timeouts;
      apart = rw (append_assoc ys (ev ∷ []) xs) x.apart;
      left = λ y. ground (arith, x.left y, r.members y);
      moved = λ y. ground (arith, has-append y ys (ev ∷ []), x.moved y, r.members y, top.0);
      order =
          LatestFirst-append s.pending.timeout ys ev x.order
            (λ z m. top.2 z (ground (arith, x.moved z, r.members z)));
    }

process_timeout_loop-Expired :
    (k : ℕ) (s : Timers) (xs : List ℕ)
    → s.pending.heap.n < k
    → IsApart s xs
    → Yields (λ t. (ys : List ℕ) × Expired s xs ys t) (process_timeout_loop k s)
unfolding process_timeout_loop
process_timeout_loop-Expired zero s xs f i = absurd (omega arith)
process_timeout_loop-Expired (suc k) s xs f i =
    Yields-bind (min_heap_top-IsTop s.pending.timeout s.pending.heap i.valid) elim [
      | none ↦ λ empty. yields ([], none_due s xs i (λ x m. absurd (ground arith)))
      | some ev ↦ λ top. elim (Bool-cases (util_timersmaller time_zero (s.pending.timeout ev))) [
        | inl later ↦ rw later (
            yields (
              [],
              none_due s xs i (λ x m.
                  ap not
                    (due_later (s.pending.timeout ev) (s.pending.timeout x) later (top.2 x m))),
            ))
        | inr due ↦
            let now = due_now (s.pending.timeout ev) due in
            rw due (
              Yields-bind (min_heap_erase-Removed s.pending.timeout s.pending.heap ev i.valid top.0)
                λ (_, h) (_, r).
                  Yields-bind
                    (list_insert-Holds s.active ev xs i.listed (ground (arith, i.nodes, top.0))
                      (i.apart ev top.0))
                    λ (_, a) (_, list, _).
                      Yields-map
                        (process_timeout_loop-Expired k (after s xs i ev h a top now r) (ev ∷ xs)
                          (omega (arith, r.size)) (after-IsApart s xs i ev h a top now r list))
                        λ t (ys, x).
                          (ys ++ (ev ∷ []), after-Expired s xs i ev h a top now r t ys x))
      ]
    ]

-- `timer_process_timeout`, on a valid heap and a list that share no timer, ends. It moves the expired
-- timers, and no others, from the heap to the front of the list, the one with the latest timeout
-- first; heap and list stay well formed and share no timer.
pub timer_process_timeout-Expired :
    (s : Timers) (xs : List ℕ)
    → IsApart s xs
    → Yields (λ t. (ys : List ℕ) × Expired s xs ys t) (timer_process_timeout s)
unfolding timer_process_timeout
timer_process_timeout-Expired s xs i =
    process_timeout_loop-Expired (s.pending.heap.n + 1) s xs (omega arith) i
