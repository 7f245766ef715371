-- ===== src/MyTimer/Timer/Tests.antt =====
-- The theorems on mytimer/timer.c at states that meet their hypotheses.
use donkeyji.Prelude.{ℕ, ◌+◌, ◌-◌, refl, some, List, [], ◌∷◌, arith, ◌==◌, if◌then◌else◌}
use donkeyji.Prelude.Int.{pos}
use donkeyji.Prelude.Exec.{Exec, ok, Yields}
use donkeyji.MyTimer.TimeVal.{TimeVal, timer_gt, util_timersub}
use donkeyji.MyTimer.MinHeap.{MinHeap}
use donkeyji.MyTimer.MinHeap.Order.{IsValid}
use donkeyji.MyTimer.ActiveList.{ListState}
use donkeyji.MyTimer.ActiveList.Chain.{Holds}
use donkeyji.MyTimer.Timer.{Pending, Timers, serve, timer_process_timeout, timer_process_actived}
use donkeyji.MyTimer.Timer.Expire.{IsApart, Expired, timer_process_timeout-Expired}
use donkeyji.MyTimer.Timer.Round.{Served, serve-Served}
use donkeyji.MyTimer.Timer.Fire.{Fired, timer_process_actived-Fired}

-- the timers 1, 2 and 3 with no time, one and two seconds left
abbrev time_left : ℕ → TimeVal
time_left x = record { sec = pos (x - 1); usec = pos 5 }

abbrev heap123 : MinHeap
heap123 = record { p = λ i. i + 1; n = 3; a = 8; idx = λ x. x - 1 }

abbrev waiting : Pending
waiting = record { heap = heap123; timeout = time_left }

heap123-IsValid : IsValid time_left heap123
unfolding timer_gt
heap123-IsValid = record {
  room = omega arith;
  small = omega arith;
  back = λ i p. omega arith;
  edges = λ c p q. ground arith;
}

abbrev second : ℕ → TimeVal
second n = record { sec = pos n; usec = pos 0 }

-- timer 9 is in the list already
abbrev one_listed : ListState
one_listed = record { list = some (record { head = 9; len = pos 1 }); next = λ x. 0; prev = λ x. 0 }

one_listed-Holds : Holds one_listed (9 ∷ [])
one_listed-Holds = record {
  first = 9;
  count = pos 1;
  list = refl;
  chain = ground arith;
  size = refl;
}

abbrev timers : Timers
timers = record { pending = waiting; active = one_listed }

timers-IsApart : IsApart timers (9 ∷ [])
timers-IsApart = record {
  valid = heap123-IsValid;
  listed = one_listed-Holds;
  nodes = refl;
  apart = λ x m. ground arith;
}

timer_process_timeout-Expired_example :
    Yields (λ t. (ys : List ℕ) × Expired timers (9 ∷ []) ys t) (timer_process_timeout timers)
timer_process_timeout-Expired_example = timer_process_timeout-Expired timers (9 ∷ []) timers-IsApart

-- a callback that sets its timer to a second
abbrev rearm : ℕ → Pending → Exec Pending
rearm x s = ok (record s { timeout = λ y. if y == x then second 1 else s.timeout y })

timer_process_actived-Fired_example :
    Yields
      (Fired (record waiting { timeout = λ y. if y == 9 then second 1 else time_left y }))
      (timer_process_actived rearm timers)
timer_process_actived-Fired_example =
    timer_process_actived-Fired rearm timers (9 ∷ [])
      (record waiting { timeout = λ y. if y == 9 then second 1 else time_left y }) one_listed-Holds
      refl

-- with nothing in the list, and a callback that does nothing
abbrev idle : Timers
idle = record {
  pending = waiting;
  active = record one_listed { list = some (record { head = 0; len = pos 0 }) };
}

idle-IsApart : IsApart idle []
idle-IsApart = record {
  valid = heap123-IsValid;
  listed = record { first = 0; count = pos 0; list = refl; chain = refl; size = refl };
  nodes = refl;
  apart = λ x m. refl;
}

serve-Served_example :
    Yields
      (Served (λ x s. s) waiting (util_timersub (second 8) (second 7)))
      (serve (λ x s. ok s) (second 7) (second 8) idle)
serve-Served_example =
    serve-Served (λ x s. s) idle (second 7) (second 8) idle-IsApart (λ x m. omega arith)
      (omega arith) (omega arith)
