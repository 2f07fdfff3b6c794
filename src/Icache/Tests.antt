-- ===== src/Icache/Tests.antt =====
-- kernel/fs.c: the root directory looked up in a cache of two entries.
use ev.Prelude.{
  ℕ, ◌≡◌, refl, false, [], ◌∷◌, none, some, ◌==◌, if◌then◌else◌, replicate, Result, ok, panic,
  fault, asleep, arith,
}
use ev.Prelude.Int.{pos, succ, pred}
use ev.RecoveryLock.Locks
use ev.RecoveryLock.Locks.{
  Caller, enter_recovery_critical_section, exit_recovery_critical_section,
  enter_recovery_critical_section_nodes, exit_recovery_critical_section_nodes,
}
use ev.RecoveryLock.History.{
  history, put_history, add_flag, del_flag, clear_last, close_up, has_flag,
}
use ev.RecoveryLock.Index.{search_recovery_idx, search_idx}
use ev.Icache.{State, is_cached, remember, idup, recycle_inode, iget_empty, iget_from, iget}
use ev.Icache.Unique.{IsUnique, InCache, iget-IsUnique}

abbrev sections : Locks.State
sections = record {
  recovery_locks = replicate 20 (record { num = pos 0; exception = 0; holder = none });
  rcs_infos = record { pid = 3; history_idx = 0 ∷ 0 ∷ 0 ∷ 0 ∷ 0 ∷ [] } ∷ [];
  indexes = record {
    buf_idx = [];
    file_idx = [];
    inode_idx = record { flag = 12; addr = 80 } ∷ record { flag = 13; addr = 90 } ∷ [];
  };
}

abbrev caller : Caller
caller = record { cpu = 0; noff = pos 0; pid = some 3 }

-- The second entry is in use, for the inode 5.
abbrev cache : State
cache = record {
  locks = sections;
  inodes = λ i. record { dev = 1; inum = 5; ref = if i == 90 then 1 else 0; valid = false };
  table = 80 ∷ 90 ∷ [];
}

cache-IsUnique : IsUnique cache
unfolding is_cached
cache-IsUnique dev inum a b (ma, ca) (mb, cb) = ground arith

abbrev given : Result (ℕ × State) → State
given (ok (i, t)) = t
given panic = cache
given fault = cache
given asleep = cache

abbrev looked_up : State
looked_up = given (iget caller 1 1 cache)

root_ok : iget caller 1 1 cache ≡ ok (80, looked_up)
unfolding iget iget_from iget_empty is_cached remember recycle_inode idup succ pred
    enter_recovery_critical_section exit_recovery_critical_section
    enter_recovery_critical_section_nodes exit_recovery_critical_section_nodes history put_history
    add_flag del_flag clear_last close_up has_flag search_recovery_idx search_idx
root_ok = refl

iget-IsUnique_example : IsUnique looked_up × InCache looked_up 1 1 80
iget-IsUnique_example = iget-IsUnique caller 1 1 80 cache looked_up cache-IsUnique root_ok
