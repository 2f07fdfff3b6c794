-- ===== src/Proc/Step.antt =====
-- kernel/proc.c: what the processes and the scheduler can do, as a relation between tables.
use ev.Prelude.{ℕ, ◌≡◌, ◌⊎◌, Bool, true, some}
use ev.Prelude.Int.{ℤ}
use ev.Proc.{
  Procstate, Chan, Procs, at, is_running, fork, wakeup, wakeup1, kill, sleep, tidy, yield, schedule,
  set_state, exit_finish, wait, reaped, sleeps,
}

-- Where a step names the process `me`, that one is running. A process sleeps on an address that is
-- not that of a process, except in `wait`. In `exit`, the parent that was read can have been replaced
-- by `initproc` before its lock is taken.
pub data Step : Procs → Procs → Type 0 where
  fork_step :
      {s : Procs} (has_page copied : Bool) (me : ℕ)
      → is_running (at s.table me) ≡ true
      → Step s (fork has_page copied me s).1
  wakeup_step : {s : Procs} (chan : Chan) → Step s (wakeup chan s)
  kill_step : {s : Procs} (pid : ℕ) → Step s (kill pid s).1
  sleep_step :
      {s : Procs} (me chan : ℕ)
      → is_running (at s.table me) ≡ true
      → Step s (sleep me (Chan.address chan) s)
  tidy_step : {s : Procs} (me : ℕ) → is_running (at s.table me) ≡ true → Step s (tidy me s)
  yield_step : {s : Procs} (me : ℕ) → is_running (at s.table me) ≡ true → Step s (yield me s)
  schedule_step : {s : Procs} (i : ℕ) → Step s (schedule i s)
  nmi_step :
      {s : Procs} (me : ℕ)
      → is_running (at s.table me) ≡ true
      → Step s (set_state Procstate.recovering me s)
  recovered_step :
      {s : Procs} (me : ℕ)
      → (at s.table me).state ≡ Procstate.recovering
      → Step s (set_state Procstate.running me s)
  exit_init_step :
      {s : Procs} (me : ℕ) → is_running (at s.table me) ≡ true → Step s (wakeup1 s.initproc s)
  exit_step :
      {s : Procs} (status : ℤ) (me original_parent : ℕ)
      → is_running (at s.table me) ≡ true
      → ((at s.table me).parent ≡ some original_parent) ⊎ ((at s.table me).parent ≡ some s.initproc)
      → Step s (exit_finish status me original_parent s)
  reap_step :
      {s t : Procs} (copied : Bool) (me pid : ℕ) (status : ℤ)
      → is_running (at s.table me) ≡ true
      → wait copied me s ≡ reaped pid status t
      → Step s t
  wait_step :
      {s t : Procs} (copied : Bool) (me : ℕ)
      → is_running (at s.table me) ≡ true
      → wait copied me s ≡ sleeps t
      → Step s t

pub data Steps : Procs → Procs → Type 0 where
  done : {s : Procs} → Steps s s
  more : {s t u : Procs} → Steps s t → Step t u → Steps s u
