-- ===== src/Files/Tests.antt =====
-- kernel/file.c with one file that a process has open, duplicated and closed.
use ev.Prelude.{
  ◌≡◌, refl, [], ◌∷◌, none, some, ◌==◌, if◌then◌else◌, replicate, Result, ok, panic, fault, asleep,
  arith,
}
use ev.Prelude.Int.{ℤ, pos, succ, pred}
use ev.RecoveryLock.Locks
use ev.RecoveryLock.Locks.{
  Caller, enter_recovery_critical_section, exit_recovery_critical_section,
  enter_recovery_critical_section_nodes, exit_recovery_critical_section_nodes,
}
use ev.RecoveryLock.History.{
  history, put_history, add_flag, del_flag, clear_last, close_up, has_flag,
}
use ev.RecoveryLock.Index.{search_recovery_idx, search_idx}
use ev.Files.{
  State, Last, FileType, filedup, close_last, fileclose, free_fd, put_fd, fdalloc, enter_file,
  argfd, leave_ftable, leave_file, dup_file, sys_dup, sys_close, filealloc, alloc_from,
}
use ev.Files.Sum.{count, total}
use ev.Files.Count.{IsCounted, sys_close-IsCounted}

abbrev sections : Locks.State
sections = record {
  recovery_locks = replicate 20 (record { num = pos 0; exception = 0; holder = none });
  rcs_infos = record { pid = 3; history_idx = 0 ∷ 0 ∷ 0 ∷ 0 ∷ 0 ∷ [] } ∷ [];
  indexes = record {
    buf_idx = [];
    file_idx = record { flag = 12; addr = 80 } ∷ [];
    inode_idx = [];
  };
}

abbrev caller : Caller
caller = record { cpu = 0; noff = pos 0; pid = some 3 }

abbrev last : Last
last = record { pipe = λ l. ok l; inode = λ l. ok l }

abbrev opened : State
opened = record {
  locks = sections;
  ftable = 80 ∷ [];
  ref = λ f. if f == 80 then 1 else 0;
  kind = λ f. FileType.fd_inode;
  ofiles = (some 80 ∷ none ∷ []) ∷ [];
}

opened-IsCounted : IsCounted opened
unfolding total count
opened-IsCounted f = ground arith

abbrev state : Result (ℤ × State) → State
state (ok (r, t)) = t
state panic = opened
state fault = opened
state asleep = opened

abbrev doubled : State
doubled = state (sys_dup caller 0 0 opened)

dup_ok : sys_dup caller 0 0 opened ≡ ok (pos 1, doubled)
unfolding sys_dup argfd enter_file dup_file fdalloc free_fd put_fd filedup leave_file leave_ftable
    succ pred enter_recovery_critical_section exit_recovery_critical_section
    enter_recovery_critical_section_nodes exit_recovery_critical_section_nodes history put_history
    add_flag del_flag clear_last close_up has_flag search_recovery_idx search_idx
dup_ok = refl

abbrev closed : State
closed = state (sys_close caller last 0 0 opened)

close_ok : sys_close caller last 0 0 opened ≡ ok (pos 0, closed)
unfolding sys_close argfd enter_file put_fd fileclose close_last leave_ftable succ pred
    enter_recovery_critical_section exit_recovery_critical_section
    enter_recovery_critical_section_nodes exit_recovery_critical_section_nodes history put_history
    add_flag del_flag clear_last close_up has_flag search_recovery_idx search_idx
close_ok = refl

sys_close-IsCounted_example : IsCounted closed
sys_close-IsCounted_example =
    sys_close-IsCounted caller last 0 0 (pos 0) opened closed opened-IsCounted close_ok

-- The table is full, so no file is given.
full : filealloc caller opened ≡ ok (none, opened)
unfolding filealloc alloc_from succ pred enter_recovery_critical_section
    exit_recovery_critical_section enter_recovery_critical_section_nodes
    exit_recovery_critical_section_nodes history put_history add_flag del_flag clear_last close_up
    has_flag search_recovery_idx search_idx
full = refl
