-- ===== src/Proc/Tests.antt =====
-- kernel/proc.c with four entries: `init`, its child, a grandchild and a free entry.
use ev.Prelude.{ℕ, zero, suc, ◌≡◌, ◌≢◌, inl, refl, true, false, [], ◌∷◌, some, arith}
use ev.Prelude.Int.{pos}
use ev.Proc.{
  Procstate, Chan, Proc, Procs, Waited, at, blank, find_index, put, allocpid, allocproc, fork,
  wakeup1, kill, sleep, reparent, exit_finish, wait, reaped, failed, sleeps,
}
use ev.Proc.Step.{Step, Steps}
use ev.Proc.Wakeup.{IsCalm, in_wait, dead_child}
use ev.Proc.Calm.{Steps-IsCalm}
use ev.Proc.Reap.{wait-exit_finish}

abbrev proc_of : Procstate → ℕ → ℕ → Proc
proc_of state parent pid = record {
  state = state;
  parent = some parent;
  chan = Chan.nowhere;
  killed = false;
  xstate = pos 0;
  pid = pid;
}

abbrev family : Procs
family = record {
  table =
      proc_of Procstate.sleeping 9 1
      ∷ proc_of Procstate.running 0 2
      ∷ proc_of Procstate.running 1 3
      ∷ blank
      ∷ [];
  nextpid = 4;
  initproc = 0;
}

family-IsCalm : IsCalm family
unfolding in_wait dead_child
family-IsCalm zero j ne h = ground arith
family-IsCalm (suc zero) j ne h = ground arith
family-IsCalm (suc (suc zero)) j ne h = ground arith
family-IsCalm (suc (suc (suc zero))) j ne h = ground arith
family-IsCalm (suc (suc (suc (suc i)))) j ne h = ground arith

abbrev waiting : Waited → Procs
waiting (sleeps t) = t
waiting failed = family
waiting (reaped pid status t) = t

-- The child waits, and the grandchild exits.
abbrev parent_asleep : Procs
parent_asleep = waiting (wait true 1 family)

parent_sleeps : wait true 1 family ≡ sleeps parent_asleep
unfolding wait find_index
parent_sleeps = refl

grandchild_runs : Steps family (exit_finish (pos 5) 2 1 parent_asleep)
unfolding wait find_index sleep put
grandchild_runs =
    Steps.more (Steps.more Steps.done (Step.wait_step true 1 refl parent_sleeps))
      (Step.exit_step (pos 5) 2 1 refl (inl refl))

Steps-IsCalm_example : IsCalm (exit_finish (pos 5) 2 1 parent_asleep)
Steps-IsCalm_example =
    Steps-IsCalm family (exit_finish (pos 5) 2 1 parent_asleep) grandchild_runs family-IsCalm

parent_woken : (at (exit_finish (pos 5) 2 1 parent_asleep).table 1).state ≡ Procstate.runnable
unfolding wait find_index sleep put exit_finish reparent wakeup1
parent_woken = refl

abbrev orphan : Procs
orphan = exit_finish (pos 5) 2 1 family

alone : (i : ℕ) → i ≢ 2 → dead_child 1 (at family.table i) ≡ false
unfolding dead_child
alone zero ne = refl
alone (suc zero) ne = refl
alone (suc (suc zero)) ne = refl
alone (suc (suc (suc zero))) ne = refl
alone (suc (suc (suc (suc i)))) ne = refl

wait-exit_finish_example :
    (u : Procs) × (wait true 1 orphan ≡ reaped 3 (pos 5) u)
    × (at u.table 2 ≡ blank)
    × ((i : ℕ) → i ≢ 2 → at u.table i ≡ at orphan.table i)
wait-exit_finish_example =
    wait-exit_finish (pos 5) 2 1 family (omega arith) refl (omega arith) (omega arith) alone

-- `kill(0)` marks the first free entry, and the next process is born killed.
born_killed : (at (fork true true 1 (kill 0 family).1).1.table 3).killed ≡ true
unfolding kill find_index put fork allocproc allocpid
born_killed = refl
