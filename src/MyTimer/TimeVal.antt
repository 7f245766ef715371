-- ===== src/MyTimer/TimeVal.antt =====
-- `struct timeval`, the order `evutil_timercmp` of mytimer/min_heap.c, and mytimer/util.h.
-- `tv_sec` and `tv_usec` are 64-bit signed numbers; they are integers here, so the statements are
-- for values whose differences do not overflow.
mod Tests
use donkeyji.Prelude.{
  ℕ, ◌+◌, ◌*◌, ◌<◌, ◌≡◌, sym, ◌∙◌, ◌↔◌, inl, inr, Bool, true, false, arith, if◌then◌else◌,
  Bool-cases,
}
use mathlib.Core.Bool.{false≢true}
use donkeyji.Prelude.Int.{
  ℤ, pos, pos_part, neg_part, ◌+ℤ◌, ◌-ℤ◌, ◌≤ℤ◌, ◌<ℤ◌, ltb_ℤ, eqb_ℤ, +ℤ_parts, -ℤ_parts,
}

pub record TimeVal : Type 0 where
  pub sec : ℤ
  pub usec : ℤ

-- `evutil_timercmp (a, b, >)`
unfoldable pub timer_gt : TimeVal → TimeVal → Bool
timer_gt a b = if eqb_ℤ a.sec b.sec then ltb_ℤ b.usec a.usec else ltb_ℤ b.sec a.sec

-- `util_timersmaller`
unfoldable pub util_timersmaller : TimeVal → TimeVal → Bool
util_timersmaller a b =
    if eqb_ℤ a.sec b.sec
    then (if ltb_ℤ a.usec b.usec then true else false)
    else (if ltb_ℤ a.sec b.sec then true else false)

-- `util_timersub (a, b, res)`
unfoldable pub util_timersub : TimeVal → TimeVal → TimeVal
util_timersub a b =
    let sec = a.sec -ℤ b.sec in
    let usec = a.usec -ℤ b.usec in
    if ltb_ℤ usec (pos 0)
    then record { sec = sec -ℤ pos 1; usec = usec +ℤ pos 1_000_000 }
    else record { sec = sec; usec = usec }

-- `a` is not later than `b`
abbrev pub Le : TimeVal → TimeVal → Type 0
Le a b = timer_gt a b ≡ false

-- microseconds within a second, as every clock returns them
pub record IsNormal (t : TimeVal) : Type 0 where
  pub above : pos 0 ≤ℤ t.usec
  pub below : t.usec <ℤ pos 1_000_000

pub Le-refl : (a : TimeVal) → Le a a
unfolding timer_gt
Le-refl a = ground arith

pub Le-trans : (a b c : TimeVal) → Le a b → Le b c → Le a c
unfolding timer_gt
Le-trans a b c h k = ground arith

pub Le_of_gt : (a b : TimeVal) → timer_gt a b ≡ true → Le b a
unfolding timer_gt
Le_of_gt a b h = ground arith

-- `util_timersmaller` is the same order read from the other side
pub smaller-eq-gt : (a b : TimeVal) → util_timersmaller a b ≡ timer_gt b a
unfolding util_timersmaller timer_gt
smaller-eq-gt a b = ground arith

pub util_timersub-IsNormal :
    (a b : TimeVal) → IsNormal a → IsNormal b → IsNormal (util_timersub a b)
unfolding util_timersub
util_timersub-IsNormal a b m n =
    ground (arith, -ℤ_parts a.usec b.usec, +ℤ_parts (a.usec -ℤ b.usec) (pos 1_000_000))

-- the microseconds of a time, as a difference `up - down`
abbrev pub up : TimeVal → ℕ
up t = pos_part t.sec * 1_000_000 + pos_part t.usec

abbrev pub down : TimeVal → ℕ
down t = neg_part t.sec * 1_000_000 + neg_part t.usec

-- on normal times the order is the order of the microseconds
pub timer_gt-iff-lt :
    (a b : TimeVal)
    → IsNormal a
    → IsNormal b
    → (timer_gt a b ≡ true) ↔ (up b + down a < up a + down b)
unfolding timer_gt
timer_gt-iff-lt a b na nb = (λ h. ground arith, λ h. ground arith)

-- `util_timersub a b` is the difference of `a` and `b` in microseconds
pub util_timersub-exact :
    (a b : TimeVal)
    → up (util_timersub a b) + down a + up b ≡ down (util_timersub a b) + up a + down b
unfolding util_timersub
util_timersub-exact a b = ground (
  arith,
  -ℤ_parts a.usec b.usec,
  -ℤ_parts a.sec b.sec,
  +ℤ_parts (a.usec -ℤ b.usec) (pos 1_000_000),
  -ℤ_parts (a.sec -ℤ b.sec) (pos 1),
)

-- `util_timersub` of the same normal time from two normal times keeps their order
pub util_timersub_mono :
    (a b d : TimeVal)
    → IsNormal a
    → IsNormal b
    → IsNormal d
    → Le a b
    → Le (util_timersub a d) (util_timersub b d)
util_timersub_mono a b d na nb nd h =
    elim (Bool-cases (timer_gt (util_timersub a d) (util_timersub b d))) [
      | inr le ↦ le
      | inl gt ↦ absurd (
          let later =
            (timer_gt-iff-lt (util_timersub a d) (util_timersub b d)
                (util_timersub-IsNormal a d na nd) (util_timersub-IsNormal b d nb nd)).0
              gt in
          let earlier =
            (timer_gt-iff-lt a b na nb).1
              (omega (arith, util_timersub-exact a d, util_timersub-exact b d)) in
          false≢true (sym h ∙ earlier))
    ]
