-- ===== src/MyTimer/TimeVal/Tests.antt =====
-- The theorems on mytimer/util.h and `evutil_timercmp` at normal times.
use donkeyji.Prelude.{◌+◌, ◌<◌, ◌≡◌, ◌↔◌, true, refl, arith}
use donkeyji.Prelude.Int.{pos, negsuc, ◌-ℤ◌, ◌+ℤ◌}
use donkeyji.MyTimer.TimeVal.{TimeVal, up, down, timer_gt, timer_gt-iff-lt, util_timersub}

abbrev early : TimeVal
early = record { sec = pos 1; usec = pos 999_999 }

abbrev late : TimeVal
late = record { sec = pos 2; usec = pos 3 }

abbrev passed : TimeVal
passed = record { sec = pos 1; usec = pos 5 }

timer_gt-iff-lt_example :
    (timer_gt late early ≡ true) ↔ (up early + down late < up late + down early)
timer_gt-iff-lt_example = timer_gt-iff-lt late early (omega arith) (omega arith)

-- the microseconds borrow from the seconds
borrows : util_timersub late passed ≡ record { sec = pos 0; usec = pos 999_998 }
unfolding util_timersub ◌-ℤ◌ ◌+ℤ◌
borrows = refl

below_zero : util_timersub passed late ≡ record { sec = negsuc 0; usec = pos 2 }
unfolding util_timersub ◌-ℤ◌
below_zero = refl
