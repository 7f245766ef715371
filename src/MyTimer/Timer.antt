-- ===== src/MyTimer/Timer.antt =====
-- mytimer/timer.c: timers are added to the heap, the loop takes the time that has passed off every
-- timer, moves the expired ones to the list `tl`, and calls their callbacks.
-- The messages that the functions print are left out.
pub mod Update
pub mod Expire
pub mod Fire
pub mod Round
mod Tests
use donkeyji.Prelude.{
  List, [], ◌∷◌, ℕ, zero, suc, ◌+◌, Bool, true, false, Option, none, some, ◌==◌, if◌then◌else◌,
  update,
}
use donkeyji.Prelude.Int.{pos, pos_part}
use donkeyji.Prelude.Chain.{null}
use donkeyji.Prelude.Exec.{Exec, ok, fault, out_of_fuel, ◌>>=◌}
use donkeyji.MyTimer.TimeVal.{TimeVal, util_timersub, util_timersmaller}
use donkeyji.MyTimer.MinHeap.{MinHeap, load, min_heap_top, min_heap_push, min_heap_erase}
use donkeyji.MyTimer.ActiveList.{ListHead, ListState, list_insert, list_remove}

-- what callbacks can reach: the heap `mh`, and the timeouts of the timers
pub record Pending : Type 0 where
  pub heap : MinHeap
  pub timeout : ℕ → TimeVal

-- the module's variables; `active` is the list `tl` of expired timers
pub record Timers : Type 0 where
  pub pending : Pending
  pub active : ListState

-- `false` is the status -1; `granted` is whether the heap gets the memory that it may ask for
unfoldable pub timer_add : (granted : Bool) → Pending → ℕ → TimeVal → Exec (Bool × Pending)
timer_add granted s t tv =
    let timeout = update s.timeout t tv in
    if t == null then ok (false, s) else do
      (done, heap) ← min_heap_push timeout granted s.heap t
      ok (done, record { heap = heap; timeout = timeout })

-- `none` is the null pointer
unfoldable pub timer_get_next_timeout : Pending → Exec (Option TimeVal)
timer_get_next_timeout s = do
  top ← min_heap_top s.heap
  elim top [ none ↦ ok none | some t ↦ ok (some (s.timeout t)) ]

-- the loop of `timer_update`: `size` entries from index `i` on
unfoldable pub update_loop : MinHeap → TimeVal → ℕ → ℕ → (ℕ → TimeVal) → Exec (ℕ → TimeVal)
update_loop h delta zero i timeout = ok timeout
update_loop h delta (suc size) i timeout = do
  ev ← load h i
  update_loop h delta size (i + 1) (update timeout ev (util_timersub (timeout ev) delta))

unfoldable pub timer_update : Pending → (start end : TimeVal) → Exec Pending
unfolding update_loop
timer_update s start end = do
  timeout ← update_loop s.heap (util_timersub end start) s.heap.n 0 s.timeout
  ok (record s { timeout = timeout })

abbrev pub time_zero : TimeVal
time_zero = record { sec = pos 0; usec = pos 0 }

unfoldable pub process_timeout_loop : ℕ → Timers → Exec Timers
process_timeout_loop zero s = out_of_fuel
process_timeout_loop (suc k) s =
    let expire : ℕ → Exec Timers = λ ev. do
      (_, heap) ← min_heap_erase s.pending.timeout s.pending.heap ev
      (_, active) ← list_insert s.active ev
      process_timeout_loop k (record {
        pending = record { heap = heap; timeout = s.pending.timeout };
        active = active;
      })
    in min_heap_top s.pending.heap >>= λ top. elim top [
      | none ↦ ok s
      | some ev ↦ if util_timersmaller time_zero (s.pending.timeout ev) then ok s else expire ev
    ]

-- every round takes a timer out of the heap
unfoldable pub timer_process_timeout : Timers → Exec Timers
unfolding process_timeout_loop
timer_process_timeout s = process_timeout_loop (s.pending.heap.n + 1) s

-- `call p` is `(p->cb) (p->arg)`, the user's code; it can reach the heap and the timeouts only
module _ (call : ℕ → Pending → Exec Pending) where
  unfoldable pub actived_loop : ℕ → Timers → ℕ → Exec Timers
  actived_loop zero s p = out_of_fuel
  actived_loop (suc k) s p =
      let n = s.active.next p in
      let fire : Exec Timers = do
        pending ← call p s.pending
        active ← list_remove s.active p
        actived_loop k (record { pending = pending; active = active }) n
      in if p == null then ok s else fire

  -- the list has `len` nodes; reading through a NULL `tl` is a fault
  unfoldable pub timer_process_actived : Timers → Exec Timers
  unfolding actived_loop
  timer_process_actived s = elim s.active.list [
    | none ↦ fault
    | some l ↦ if pos_part l.len == 0 then ok s else actived_loop (pos_part l.len + 1) s l.head
  ]

-- what a round of `timer_loop` meets outside: the two readings of the clock, and whether
-- `timer_dispath`, given the timeout to wait for, returned anything but -1
pub record Tick : Type 0 where
  pub start : TimeVal
  pub dispatch : Option TimeVal → Bool
  pub end : TimeVal

module _ (call : ℕ → Pending → Exec Pending) where
  -- what a round does after the wait
  unfoldable pub serve : (start end : TimeVal) → Timers → Exec Timers
  serve start end s = do
    pending ← timer_update s.pending start end
    expired ← timer_process_timeout (record s { pending = pending })
    timer_process_actived call expired

  -- `timer_loop` for as many rounds as there are ticks; `false` is the status -1
  unfoldable pub timer_loop : List Tick → Timers → Exec (Bool × Timers)
  timer_loop [] s = ok (true, s)
  timer_loop (tick ∷ ticks) s =
      let round : Exec (Bool × Timers) = do t ← serve tick.start tick.end s; timer_loop ticks t
      in timer_get_next_timeout s.pending >>= λ timeout.
      if tick.dispatch timeout then round else ok (false, s)
