-- ===== src/RecoveryLock/Locks/Tests.antt =====
-- Runs of kernel/recovery_locking.c, and its theorems at concrete states.
use ev.Prelude.{
  ℕ, zero, suc, ◌+◌, ◌≡◌, refl, ◌∙◌, List, [], ◌∷◌, none, some, get_elem?, set, replicate, ok,
  panic, asleep, arith,
}
use ev.Prelude.Int.{pos, negsuc, succ, pred}
use ev.RecoveryLock.Index.{Indexes}
use ev.RecoveryLock.Index.Flags.{Injective}
use ev.RecoveryLock.History.{
  history, put_history, add_flag, del_flag, has_flag, clear_last, close_up,
}
use ev.RecoveryLock.History.Counts.{count, total}
use ev.RecoveryLock.Locks.{
  RecoveryLock, State, Caller, enter_recovery_critical_section, exit_recovery_critical_section,
  exit_recovery_critical_section_all, acquire_recovery_lock,
}
use ev.RecoveryLock.Locks.Exclusion.{acquire-enter}
use ev.RecoveryLock.Locks.Balance.{num_of, Matched, enters, here, next, Reach-Matched}

abbrev free : RecoveryLock
free = record { num = pos 0; exception = 0; holder = none }

abbrev taken : RecoveryLock
taken = record { num = pos 0; exception = 0; holder = some 1 }

abbrev nobody : List ℕ
nobody = 0 ∷ 0 ∷ 0 ∷ 0 ∷ 0 ∷ []

abbrev double : ℕ → ℕ
double i = i + i

abbrev tables : Indexes
tables = record {
  buf_idx = record { flag = 9; addr = 80 } ∷ record { flag = 10; addr = 81 } ∷ [];
  file_idx = [];
  inode_idx = [];
}

-- Eleven locks, all free, and one process.
abbrev quiet : State
quiet = record {
  recovery_locks = replicate 11 free;
  rcs_infos = record { pid = 3; history_idx = nobody } ∷ [];
  indexes = tables;
}

abbrev caller : Caller
caller = record { cpu = 0; noff = pos 0; pid = some 3 }

abbrev inside : State
inside = record quiet {
  recovery_locks = set (replicate 11 free) 6 (record free { num = pos 1 });
  rcs_infos = record { pid = 3; history_idx = 6 ∷ 0 ∷ 0 ∷ 0 ∷ 0 ∷ [] } ∷ [];
}

enter_log : enter_recovery_critical_section caller 6 0 quiet ≡ ok inside
unfolding enter_recovery_critical_section succ history put_history add_flag
enter_log = refl

exit_log : exit_recovery_critical_section caller 6 0 inside ≡ ok quiet
unfolding exit_recovery_critical_section pred history put_history del_flag clear_last close_up
    has_flag
exit_log = refl

-- A recovering process counts down the lock of flag 0 once for each of its four empty places.
exit_all_log :
    exit_recovery_critical_section_all 3 inside
    ≡ ok (record quiet {
      recovery_locks = set (replicate 11 free) 0 (record free { num = negsuc 3 });
    })
unfolding exit_recovery_critical_section_all pred history put_history
exit_all_log = refl

double-Injective : Injective double
double-Injective i j e = omega arith

abbrev recovering : State
recovering = record quiet { recovery_locks = set (replicate 11 free) 6 taken }

acquired : acquire_recovery_lock 1 6 quiet ≡ ok recovering
unfolding acquire_recovery_lock
acquired = refl

-- Another cpu waits, but not within a section without interrupts.
waits : enter_recovery_critical_section caller 6 0 recovering ≡ asleep
unfolding enter_recovery_critical_section
waits = refl

nested : enter_recovery_critical_section (record caller { noff = pos 1 }) 6 0 recovering ≡ panic
unfolding enter_recovery_critical_section
nested = refl

-- The recovering cpu enters the section that it holds.
entered :
    enter_recovery_critical_section (record caller { cpu = 1 }) 6 0 recovering
    ≡ ok (record recovering { rcs_infos = inside.rcs_infos })
unfolding enter_recovery_critical_section history put_history add_flag
entered = refl

acquire-enter_example : (◌≡◌ {A = ℕ} 1 1) × (recovering.recovery_locks ≡ recovering.recovery_locks)
acquire-enter_example =
    acquire-enter 1 6 0 (record caller { cpu = 1 }) quiet recovering
      (record recovering { rcs_infos = inside.rcs_infos }) acquired entered

idle : (k f : ℕ) → num_of (get_elem? (replicate k free) f) ≡ pos 0
idle zero f = refl
idle (suc k) zero = refl
idle (suc k) (suc f) = idle k f

quiet-Matched : Matched quiet
unfolding total count
quiet-Matched f nf = idle 11 f ∙ ground arith

Reach-Matched_example : Matched inside
unfolding history has_flag
Reach-Matched_example =
    Reach-Matched quiet inside quiet-Matched
      (next here (enters caller 3 6 0 free nobody refl (omega arith) refl refl refl refl enter_log))
