-- ===== src/MyTimer/Timer/Fire.antt =====
-- `timer_process_actived`
use donkeyji.Prelude.{ℕ, zero, suc, ◌+◌, ◌<◌, ◌≡◌, false, List, [], ◌∷◌, arith, ◌==◌, length}
use donkeyji.Prelude.Exec.{Exec, ok, ◌>>=◌, Yields, yields, Yields-bind, bind-ok}
use donkeyji.MyTimer.ActiveList.Chain.{Holds}
use donkeyji.Prelude.Chain.{Chain, null}
use donkeyji.MyTimer.ActiveList.Remove.{list_remove-head}
use donkeyji.MyTimer.Timer.{Pending, Timers, actived_loop, timer_process_actived}

-- the callbacks of the timers `xs`, in order
abbrev pub call_all : (ℕ → Pending → Exec Pending) → List ℕ → Pending → Exec Pending
call_all call [] s = ok s
call_all call (x ∷ xs) s = call x s >>= call_all call xs

-- the callbacks have run, and the list is empty
abbrev pub Fired : Pending → Timers → Type 0
Fired q t = (t.pending ≡ q) × Holds t.active []

module _ (call : ℕ → Pending → Exec Pending) (q : Pending) where
  actived_loop-Fired :
      (k : ℕ) (xs : List ℕ) (s : Timers) (p : ℕ)
      → length xs < k
      → Holds s.active xs
      → Chain s.active.next p xs
      → call_all call xs s.pending ≡ ok q
      → Yields (Fired q) (actived_loop call k s p)
  unfolding actived_loop
  actived_loop-Fired zero xs s p f h c e = absurd (omega arith)
  actived_loop-Fired (suc k) [] s p f h c e = rw c (yields (cc, h))
  actived_loop-Fired (suc k) (x ∷ xs) s p f h c e =
      let some_node : (x == null) ≡ false = ground (arith, c.1) in
      let (s', called, rest) = bind-ok (call x s.pending) (call_all call xs) e in
      rw (c.0, some_node, called)
        (Yields-bind (list_remove-head s.active x xs h) λ a (held, same).
          actived_loop-Fired k xs (record { pending = s'; active = a }) (s.active.next x)
            (omega arith) held (rw same c.3) rest)

-- If the callbacks of the timers of a well-formed list, called once each in the list's order, all
-- return, and change nothing of the module but the heap and the timeouts, so neither the list nor its
-- nodes (which `once_cb` does: it frees its node), then `timer_process_actived` returns, too: it has
-- made these calls, and leaves the list empty.
pub timer_process_actived-Fired :
    (call : ℕ → Pending → Exec Pending) (s : Timers) (xs : List ℕ) (q : Pending)
    → Holds s.active xs
    → call_all call xs s.pending ≡ ok q
    → Yields (Fired q) (timer_process_actived call s)
unfolding timer_process_actived
timer_process_actived-Fired call s [] q h e =
    rw (h.list, timer_process_actived, h.size) (yields (cc, h))
timer_process_actived-Fired call s (x ∷ xs) q h e =
    let not_empty : (suc (length xs) == 0) ≡ false = ground arith in
    rw (h.list, timer_process_actived, h.size, not_empty)
      (actived_loop-Fired call q (suc (length xs) + 1) (x ∷ xs) s h.first (omega arith) h h.chain e)
