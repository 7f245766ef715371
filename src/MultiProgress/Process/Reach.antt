-- ===== src/MultiProgress/Process/Reach.antt =====
-- The workers of multi_progress/process.c in every state that it can come to.
use donkeyji.Prelude.{
  ℕ, ◌+◌, ◌≡◌, refl, ◌∙◌, true, false, Bool-cases, inl, inr, Option, none, some, List, [], ◌∷◌,
  arith, ◌==◌, length,
}
use donkeyji.Prelude.Chain.{has}
use donkeyji.MultiProgress.Process.{
  Signal, sigint, sigterm, sigchld, sighup, other_signal, System, without, master_spawn_worker,
  start_loop, master_cycle, master_exit, sig_callback_master, worker_exit, sig_callback_worker,
  Process, master, worker, sig_callback, CanGet, Step, signal, crash, Reachable, start, next,
}

-- the workers that were asked for: those that run, those that have ended, and those not given
abbrev pub count : System → ℕ
count s = length s.workers + length s.zombies + s.failed

length-without : (p : ℕ) (xs : List ℕ) → has p xs ≡ true → length (without p xs) + 1 ≡ length xs
unfolding without
length-without p [] h = cc
length-without p (x ∷ xs) h = elim (Bool-cases (x == p)) [
  | inl here ↦ rw here (omega arith)
  | inr other ↦ rw other (ground (arith, length-without p xs))
]

spawn-count : (forked : Option ℕ) (s : System) → count (master_spawn_worker forked s) ≡ count s + 1
unfolding master_spawn_worker
spawn-count none s = omega arith
spawn-count (some pid) s = omega arith

exit-count : (pid : ℕ) (s : System) → has pid s.workers ≡ true → count (worker_exit pid s) ≡ count s
unfolding worker_exit
exit-count pid s h = omega (arith, length-without pid s.workers h)

signal-count :
    (p : Process) (sig : Signal) (s : System) → CanGet p s → count (sig_callback p sig s) ≡ count s
unfolding sig_callback sig_callback_master sig_callback_worker master_exit
signal-count (master none forked) sigchld s can = refl
signal-count (master (some pid) forked) sigchld s can =
    let fewer = length-without pid s.zombies can.1 in
    omega (arith, fewer, spawn-count forked (record s { zombies = without pid s.zombies }))
signal-count (master none forked) sigint s can = refl
signal-count (master (some pid) forked) sigint s can = refl
signal-count (master none forked) sigterm s can = refl
signal-count (master (some pid) forked) sigterm s can = refl
signal-count (master none forked) sighup s can = refl
signal-count (master (some pid) forked) sighup s can = refl
signal-count (master none forked) other_signal s can = refl
signal-count (master (some pid) forked) other_signal s can = refl
signal-count (worker pid) sigchld s can = refl
signal-count (worker pid) sigint s can = exit-count pid s can
signal-count (worker pid) sigterm s can = exit-count pid s can
signal-count (worker pid) sighup s can = refl
signal-count (worker pid) other_signal s can = refl

Step-count : {s t : System} → Step s t → count t ≡ count s
Step-count (signal p sig s can) = signal-count p sig s can
Step-count (crash pid s h) = exit-count pid s h

-- in every state that the program can come to, whatever signals the processes get, in whatever order
-- workers end, and whether or not `fork` gives new ones, the running workers, the zombies and the
-- workers that `fork` did not give are two together
pub Reachable-count : (s : System) → Reachable s → count s ≡ 2
unfolding master_cycle start_loop
Reachable-count _ (start forked) =
    let empty : System = record {
      workers = [];
      zombies = [];
      failed = 0;
      interrupted = [];
      ended = false;
    } in
    let first = spawn-count (forked 0) empty in
    omega (arith, first, spawn-count (forked 1) (master_spawn_worker (forked 0) empty))
Reachable-count t (next r step) = Step-count step ∙ Reachable-count _ r
