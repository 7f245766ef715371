-- ===== src/MultiProgress/Process/Tests.antt =====
-- A run of multi_progress/process.c: worker 11 ends, and the master reaps it and fails to fork.
use donkeyji.Prelude.{ℕ, ◌≡◌, refl, false, Option, none, some, [], ◌∷◌, ◌-◌}
use donkeyji.MultiProgress.Process.{
  sigchld, System, without, master_cycle, worker_exit, master, sig_callback, signal, crash,
  Reachable, start, next,
}
use donkeyji.MultiProgress.Process.Reach.{count, Reachable-count}

abbrev short_of_one : System
short_of_one = record {
  workers = 10 ∷ [];
  zombies = [];
  failed = 1;
  interrupted = [];
  ended = false;
}

abbrev pids : ℕ → Option ℕ
pids i = some (11 - i)

short_of_one-Reachable : Reachable short_of_one
unfolding master_cycle sig_callback worker_exit without
short_of_one-Reachable =
    next (next (start pids) (crash 11 (master_cycle pids) refl))
      (signal (master (some 11) none) sigchld (worker_exit 11 (master_cycle pids)) (refl, refl))

Reachable-count_example : count short_of_one ≡ 2
Reachable-count_example = Reachable-count short_of_one short_of_one-Reachable
