-- ===== src/MultiProgress/Process.antt =====
-- multi_progress/process.c: the master process, its workers and their signals.
-- A process is its number. What `fork` and `wait` return is an argument, `none` being -1. A worker
-- runs libevent's loop, which does not return. The calls that set up signals and libevent are left
-- out, and so are the children of workers, the CGI programs.
mod Reach
mod Tests
use donkeyji.Prelude.{
  ℕ, zero, suc, ◌+◌, ◌≡◌, Bool, true, false, Option, none, some, List, [], ◌∷◌, ◌==◌, if◌then◌else◌,
}
use donkeyji.Prelude.Chain.{has}

pub data Signal : Type 0 where
  sigint : Signal
  sigterm : Signal
  sigchld : Signal
  sighup : Signal
  other_signal : Signal

-- `workers` run; `zombies` have ended and wait for `wait`; `failed` counts the workers that `fork`
-- did not give; `interrupted` were sent SIGINT by the master, which then has `ended`
pub record System : Type 0 where
  pub workers : List ℕ
  pub zombies : List ℕ
  pub failed : ℕ
  pub interrupted : List ℕ
  pub ended : Bool

-- the list without the first occurrence of `p`
unfoldable pub without : ℕ → List ℕ → List ℕ
without p [] = []
without p (x ∷ xs) = if x == p then xs else x ∷ without p xs

-- what the master sees of `_master_spawn_worker`
unfoldable pub master_spawn_worker : (forked : Option ℕ) → System → System
master_spawn_worker none s = record s { failed = s.failed + 1 }
master_spawn_worker (some pid) s = record s { workers = pid ∷ s.workers }

-- `_master_start_worker`, from worker `i` on with `k` to go
unfoldable pub start_loop : (forked : ℕ → Option ℕ) → (i k : ℕ) → System → System
unfolding master_spawn_worker
start_loop forked i zero s = s
start_loop forked i (suc k) s = start_loop forked (suc i) k (master_spawn_worker (forked i) s)

unfoldable pub master_start_worker : (forked : ℕ → Option ℕ) → System → System
unfolding start_loop
master_start_worker forked s = start_loop forked 0 2 s

-- `master_cycle` up to libevent's loop
unfoldable pub master_cycle : (forked : ℕ → Option ℕ) → System
unfolding master_start_worker
master_cycle forked =
    master_start_worker forked
      (record { workers = []; zombies = []; failed = 0; interrupted = []; ended = false })

-- `_master_exit`: `kill (0, SIGINT)` and `exit (0)`
unfoldable pub master_exit : System → System
master_exit s = record s { interrupted = s.workers; ended = true }

-- `_sig_callback_master`
unfoldable pub sig_callback_master : (waited forked : Option ℕ) → Signal → System → System
unfolding master_exit
sig_callback_master none forked sigchld s = s
sig_callback_master (some pid) forked sigchld s =
    master_spawn_worker forked (record s { zombies = without pid s.zombies })
sig_callback_master waited forked sigint s = master_exit s
sig_callback_master waited forked sigterm s = master_exit s
sig_callback_master waited forked sighup s = s
sig_callback_master waited forked other_signal s = s

-- `_worker_exit` of the worker `pid`
unfoldable pub worker_exit : (pid : ℕ) → System → System
worker_exit pid s = record s { workers = without pid s.workers; zombies = pid ∷ s.zombies }

-- `_sig_callback_worker`
unfoldable pub sig_callback_worker : (pid : ℕ) → Signal → System → System
unfolding worker_exit
sig_callback_worker pid sigchld s = s
sig_callback_worker pid sigint s = worker_exit pid s
sig_callback_worker pid sigterm s = worker_exit pid s
sig_callback_worker pid sighup s = s
sig_callback_worker pid other_signal s = s

-- the process that a signal reaches: `is_child` tells a worker from the master
pub data Process : Type 0 where
  master : (waited forked : Option ℕ) → Process
  worker : (pid : ℕ) → Process

-- `_sig_callback`
unfoldable pub sig_callback : Process → Signal → System → System
unfolding sig_callback_master sig_callback_worker
sig_callback (master waited forked) sig s = sig_callback_master waited forked sig s
sig_callback (worker pid) sig s = sig_callback_worker pid sig s

-- a process that can get a signal: `wait` gives a zombie, or -1 only without any child
abbrev pub CanGet : Process → System → Type 0
CanGet (master none forked) s = (s.ended ≡ false) × (s.workers ≡ []) × (s.zombies ≡ [])
CanGet (master (some pid) forked) s = (s.ended ≡ false) × (has pid s.zombies ≡ true)
CanGet (worker pid) s = has pid s.workers ≡ true

pub data Step : System → System → Type 0 where
  -- a signal is handled
  signal : (p : Process) (sig : Signal) (s : System) → CanGet p s → Step s (sig_callback p sig s)
  -- a worker ends by itself
  crash : (pid : ℕ) (s : System) → has pid s.workers ≡ true → Step s (worker_exit pid s)

-- what the program can come to
pub data Reachable : System → Type 0 where
  start : (forked : ℕ → Option ℕ) → Reachable (master_cycle forked)
  next : {s t : System} → Reachable s → Step s t → Reachable t
