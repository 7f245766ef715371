-- ===== src/MyTimer/MinHeap/Tests.antt =====
-- Runs of mytimer/min_heap.c at fixed inputs, and its theorems at inputs that meet their hypotheses.
use donkeyji.Prelude.{ℕ, ◌+◌, ◌-◌, ◌≡◌, refl, true, Option, some, arith}
use donkeyji.Prelude.Int.{pos}
use donkeyji.Prelude.Exec.{Exec, ok, ◌>>=◌, Yields}
use donkeyji.MyTimer.TimeVal.{TimeVal, timer_gt}
use donkeyji.MyTimer.MinHeap.{
  MinHeap, load, place, parent_of, min_heap_elem_init, min_heap_elem_greater, smaller_child,
  shift_up_loop, shift_down_loop, min_heap_shift_up_, min_heap_shift_down_, min_heap_push,
  min_heap_pop, min_heap_erase,
}
use donkeyji.MyTimer.MinHeap.Order.{IsValid, HasHole}
use donkeyji.MyTimer.MinHeap.Push.{Pushed, min_heap_push-Pushed}
use donkeyji.MyTimer.MinHeap.Remove.{Removed, Popped, min_heap_pop-Popped, min_heap_erase-Removed}

-- timer `x` is due after `x` seconds
abbrev due : ℕ → TimeVal
due x = record { sec = pos x; usec = pos 0 }

-- the timers 1, 2 and 3, in this order
abbrev three : MinHeap
three = record { p = λ i. i + 1; n = 3; a = 8; idx = λ x. x - 1 }

three-IsValid : IsValid due three
unfolding timer_gt
three-IsValid = record {
  room = omega arith;
  small = omega arith;
  back = λ i p. omega arith;
  edges = λ c p q. ground arith;
}

min_heap_push-Pushed_example : Yields (Pushed due true three 4) (min_heap_push due true three 4)
min_heap_push-Pushed_example =
    min_heap_push-Pushed due true three 4 three-IsValid (omega arith) refl

min_heap_pop-Popped_example : Yields (Popped due three) (min_heap_pop due three)
min_heap_pop-Popped_example = min_heap_pop-Popped due three three-IsValid

min_heap_erase-Removed_example :
    Yields (λ (done, t). (done ≡ true) × Removed due three 2 t) (min_heap_erase due three 2)
min_heap_erase-Removed_example = min_heap_erase-Removed due three 2 three-IsValid refl

-- the last timer is put where the first one was, and sinks
three-HasHole : HasHole due (record three { n = 2 }) 0 3
unfolding timer_gt
three-HasHole = record {
  inside = omega arith;
  room = omega arith;
  small = omega arith;
  back = λ i p q. omega arith;
  apart = λ i p q. omega arith;
  edges = λ c p q u v. absurd (omega arith);
  bridged = λ c p q u v. absurd (omega arith);
}

-- a fourth entry is free, and timer 0 is to go there
abbrev fourth_free : MinHeap
fourth_free = record three { n = 4 }

fourth_free-HasHole : HasHole due fourth_free 3 0
unfolding timer_gt
fourth_free-HasHole = record {
  inside = omega arith;
  room = omega arith;
  small = omega arith;
  back = λ i p q. omega arith;
  apart = λ i p q. omega arith;
  edges = λ c p q u v. ground arith;
  bridged = λ c p q u v. absurd (omega arith);
}

-- popping gives the timers in the order of their timeouts
abbrev pop_twice : Exec (Option ℕ × Option ℕ)
pop_twice = do (a, s) ← min_heap_pop due three; (b, t) ← min_heap_pop due s; ok (a, b)

pops_in_order : pop_twice ≡ ok (some 1, some 2)
unfolding min_heap_pop min_heap_shift_down_ shift_down_loop smaller_child min_heap_shift_up_
    shift_up_loop parent_of load place min_heap_elem_init min_heap_elem_greater timer_gt
pops_in_order = refl
