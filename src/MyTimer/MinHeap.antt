-- ===== src/MyTimer/MinHeap.antt =====
-- mytimer/min_heap.c: a binary min-heap of timers, in which every timer knows its position.
-- A timer is its address. The heap's array `p` is a function on indices; only those below `a`, the
-- number of entries allocated, may be read or written, and any other access is a fault.
-- `timeout` gives `e->timeout` of every timer; no function of this file writes it.
-- `unsigned` is 32 bits wide.
pub mod Order
pub mod Up
pub mod Down
pub mod Push
pub mod Remove
mod Tests
use donkeyji.Prelude.{
  ℕ, zero, suc, ◌+◌, ◌-◌, ◌*◌, ◌/◌, ◌%◌, ◌^◌, Bool, true, false, ◌||◌, ◌&&◌, not, Option, none,
  some, ltb, leb, ◌==◌, if◌then◌else◌, update,
}
use donkeyji.Prelude.Exec.{Exec, ok, fault, out_of_fuel, ◌>>=◌}
use donkeyji.MyTimer.TimeVal.{TimeVal, timer_gt}

pub record MinHeap : Type 0 where
  pub p : ℕ → ℕ
  pub n : ℕ
  pub a : ℕ
  -- `e->min_heap_idx` of every timer
  pub idx : ℕ → ℕ

abbrev pub u32_mod : ℕ
u32_mod = 2 ^ 32

-- `(unsigned int)-1`
abbrev pub no_idx : ℕ
no_idx = 2 ^ 32 - 1

-- `s->p[i]`
pub load : MinHeap → ℕ → Exec ℕ
load s i = if ltb i s.a then ok (s.p i) else fault

-- `(s->p[i] = e)->min_heap_idx = i`
pub place : MinHeap → ℕ → ℕ → Exec MinHeap
place s i e =
    if ltb i s.a then ok (record s { p = update s.p i e; idx = update s.idx e i }) else fault

-- the array and the positions are what `malloc` left there
pub min_heap_ctor : MinHeap → MinHeap
min_heap_ctor s = record s { n = 0; a = 0 }

pub min_heap_elem_init : MinHeap → ℕ → MinHeap
min_heap_elem_init s e = record s { idx = update s.idx e no_idx }

pub min_heap_empty : MinHeap → Bool
min_heap_empty s = 0 == s.n

pub min_heap_size : MinHeap → ℕ
min_heap_size s = s.n

-- `none` is the null pointer
pub min_heap_top : MinHeap → Exec (Option ℕ)
min_heap_top s = if s.n == 0 then ok none else (do e ← load s 0; ok (some e))

-- the index of the parent, `(hole_index - 1) / 2` on unsigned numbers
pub parent_of : ℕ → ℕ
parent_of hole = ((hole + (u32_mod - 1)) % u32_mod) / 2

module _ (timeout : ℕ → TimeVal) where
  pub min_heap_elem_greater : ℕ → ℕ → Bool
  min_heap_elem_greater a b = timer_gt (timeout a) (timeout b)

  pub shift_up_loop : ℕ → MinHeap → ℕ → ℕ → Exec MinHeap
  shift_up_loop zero s hole e = out_of_fuel
  shift_up_loop (suc k) s hole e =
      let climb : Exec MinHeap = do
        x ← load s (parent_of hole)
        s' ← place s hole x
        shift_up_loop k s' (parent_of hole) e
      in let test : Exec MinHeap = do
        x ← load s (parent_of hole)
        if min_heap_elem_greater x e then climb else place s hole e
        in if hole == 0 then place s hole e else test

  -- the hole moves to a smaller index in every round
  pub min_heap_shift_up_ : MinHeap → ℕ → ℕ → Exec MinHeap
  min_heap_shift_up_ s hole e = shift_up_loop (hole + 1) s hole e

  -- `min_child -= min_child == s->n || greater (s->p[min_child], s->p[min_child - 1])`
  pub smaller_child : MinHeap → ℕ → Exec ℕ
  smaller_child s right =
      let left = (right + (u32_mod - 1)) % u32_mod in
      if right == s.n then ok left else do
        x ← load s right
        y ← load s left
        ok (if min_heap_elem_greater x y then left else right)

  pub shift_down_loop : ℕ → MinHeap → ℕ → ℕ → Exec MinHeap
  shift_down_loop zero s hole e = out_of_fuel
  shift_down_loop (suc k) s hole e =
      let right = 2 * (hole + 1) % u32_mod in
      let descend : Exec MinHeap = do
        child ← smaller_child s right
        y ← load s child
        let sink : Exec MinHeap = place s hole y >>= λ s'. shift_down_loop k s' child e
        if min_heap_elem_greater e y then sink else min_heap_shift_up_ s hole e
      in if leb right s.n then descend else min_heap_shift_up_ s hole e

  -- the hole moves to a larger index below `n` in every round
  pub min_heap_shift_down_ : MinHeap → ℕ → ℕ → Exec MinHeap
  min_heap_shift_down_ s hole e = shift_down_loop (s.n + 1) s hole e

-- `granted` is whether `realloc` has the memory; it keeps the entries. The status and the heap.
pub min_heap_reserve : (granted : Bool) → MinHeap → ℕ → Bool × MinHeap
min_heap_reserve granted s n =
    let twice = if s.a == 0 then 8 else s.a * 2 % u32_mod in
    let a = if ltb twice n then n else twice in
    if ltb s.a n then (if granted then (true, record s { a = a }) else (false, s)) else (true, s)

module _ (timeout : ℕ → TimeVal) where
  -- `false` is the status -1
  pub min_heap_push : (granted : Bool) → MinHeap → ℕ → Exec (Bool × MinHeap)
  min_heap_push granted s e =
      let (reserved, r) = min_heap_reserve granted s ((s.n + 1) % u32_mod) in
      if reserved
      then (do
        t ← min_heap_shift_up_ timeout (record r { n = (r.n + 1) % u32_mod }) r.n e
        ok (true, t))
      else ok (false, r)

  -- `none` is the null pointer
  pub min_heap_pop : MinHeap → Exec (Option ℕ × MinHeap)
  min_heap_pop s = if s.n == 0 then ok (none, s) else do
    e ← load s 0
    let s' = record s { n = s.n - 1 }
    last ← load s' s'.n
    t ← min_heap_shift_down_ timeout s' 0 last
    ok (some e, min_heap_elem_init t e)

  -- `false` is the status -1
  pub min_heap_erase : MinHeap → ℕ → Exec (Bool × MinHeap)
  min_heap_erase s e = if s.idx e == no_idx then ok (false, s) else do
    let s' = record s { n = (s.n + (u32_mod - 1)) % u32_mod }
    last ← load s' s'.n
    t ← min_heap_shift_down_ timeout s' (s.idx e) last
    ok (true, min_heap_elem_init t e)
