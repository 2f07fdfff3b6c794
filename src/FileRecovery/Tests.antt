-- ===== src/FileRecovery/Tests.antt =====
-- kernel/recovery_handler_file.c on a table of two files, of which the second is broken.
use ev.Prelude.{ℕ, ◌≡◌, refl, true, false, [], ◌∷◌, none, some, replicate, ok, fault}
use ev.Prelude.Int.{pos, pred}
use ev.Files.{fd_inode}
use ev.RecoveryLock.Index.{search_recovery_idx, search_idx}
use ev.RecoveryLock.Locks
use ev.RecoveryLock.Locks.{RecoveryLock}
use ev.RecoveryLock.Waits.{check_and_wait_procs_in_rcs_file}
use ev.FileRecovery.{File, State, null, file, t_file}

abbrev opened : ℕ → File
opened a = record { kind = fd_inode; ip = a; pipe = 0; readable = true; writable = false; ref = 1 }

abbrev before : State
before = record {
  files = opened 500 ∷ opened 600 ∷ [];
  inodes =
      record { addr = 500; ref = 2; kind = t_file }
      ∷ record { addr = 600; ref = 1; kind = t_file }
      ∷ [];
  procs = record { pid = 3; ofile = file 0 ∷ file 1 ∷ null ∷ []; cwd = 500; killed = false } ∷ [];
  readopen = λ p. false;
  writeopen = λ p. false;
}

-- The sections of the file and of its inode have the flags 11 and 12, and nobody is in one.
abbrev idle : RecoveryLock
idle = record { num = pos 0; exception = 0; holder = none }

abbrev locks : Locks.State
locks = record {
  recovery_locks = replicate 13 idle;
  rcs_infos = [];
  indexes = record {
    buf_idx = [];
    file_idx = record { flag = 11; addr = 901 } ∷ [];
    inode_idx = record { flag = 12; addr = 600 } ∷ [];
  };
}

goes_on : check_and_wait_procs_in_rcs_file 901 600 (some []) locks ≡ ok false
unfolding check_and_wait_procs_in_rcs_file search_recovery_idx search_idx pred
goes_on = refl

-- The new entry stands in no index as long as the new table is not in use.
new_unknown : check_and_wait_procs_in_rcs_file 5001 600 (some []) locks ≡ fault
unfolding check_and_wait_procs_in_rcs_file search_recovery_idx search_idx
new_unknown = refl
