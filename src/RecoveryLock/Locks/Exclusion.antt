-- ===== src/RecoveryLock/Locks/Exclusion.antt =====
-- Nobody enters a section whose recovery lock another cpu holds.
use ev.Prelude.{
  ℕ, ◌≡◌, ◌≢◌, refl, none, some, ◌==◌, if◌then◌else◌, get_elem?, get_elem?-set_self, set-set,
  set-get_elem?, get_elem?-lt-length, ok, panic, ◌>>=◌, >>=-eq-ok, arith,
}
use ev.RecoveryLock.Index.{Kind, search_recovery_idx, rl_flag_file}
use ev.RecoveryLock.Locks.{
  RecoveryLock, State, Caller, lock_at, enter_recovery_critical_section,
  enter_recovery_critical_section_nodes, acquire_recovery_lock, release_recovery_lock,
  check_and_count_procs_in_rcs,
}

-- While another cpu holds the recovery lock of a buffer, file or inode, entering its section panics.
pub enter_nodes_held :
    (c : Caller) (kind : Kind) (addr flag k : ℕ) (l : RecoveryLock) (s : State)
    → search_recovery_idx kind addr s.indexes ≡ some flag
    → get_elem? s.recovery_locks flag ≡ some l
    → l.holder ≡ some k
    → k ≢ c.cpu
    → enter_recovery_critical_section_nodes c kind addr s ≡ panic
unfolding enter_recovery_critical_section_nodes
enter_nodes_held c kind addr flag k l s f e h ne = ground arith

-- A recovery lock is taken only while it is free.
pub acquire_free :
    (cpu flag : ℕ) (l : RecoveryLock) (s s' : State)
    → acquire_recovery_lock cpu flag s ≡ ok s'
    → get_elem? s.recovery_locks flag ≡ some l
    → l.holder ≡ none
unfolding acquire_recovery_lock
acquire_free cpu flag l s s' h e = ground arith

-- When a cpu has taken a recovery lock and a caller then enters its section, the caller runs on that cpu,
-- and is not counted: the recovery locks are as the cpu left them.
pub acquire-enter :
    (cpu flag exception : ℕ) (c : Caller) (s s' s'' : State)
    → acquire_recovery_lock cpu flag s ≡ ok s'
    → enter_recovery_critical_section c flag exception s' ≡ ok s''
    → (c.cpu ≡ cpu) × (s''.recovery_locks ≡ s'.recovery_locks)
unfolding acquire_recovery_lock enter_recovery_critical_section
acquire-enter cpu flag exception c s s' s'' h g =
    let (l, e, k) = >>=-eq-ok (lock_at flag s) _ h in
    ground (
      arith,
      get_elem?-set_self s.recovery_locks flag (record l { holder = some cpu }),
      get_elem?-lt-length s.recovery_locks flag l,
    )

-- A recovery lock that a cpu took is released by that cpu, with the state as before, and panics for
-- every other one.
pub acquire-release :
    (cpu cpu' flag : ℕ) (s s' : State)
    → acquire_recovery_lock cpu flag s ≡ ok s'
    → release_recovery_lock cpu' flag s' ≡ (if cpu == cpu' then ok s else panic)
unfolding acquire_recovery_lock release_recovery_lock
acquire-release cpu cpu' flag s s' h =
    let (l, e, k) = >>=-eq-ok (lock_at flag s) _ h in
    ground (
      arith,
      get_elem?-set_self s.recovery_locks flag (record l { holder = some cpu }),
      set-set s.recovery_locks flag (record l { holder = some cpu }) (record l { holder = none }),
      set-get_elem? s.recovery_locks flag l,
      get_elem?-lt-length s.recovery_locks flag l,
    )

-- `check_and_count_procs_in_rcs` reads the lock of buffer 1 when it is asked for a file or an inode
-- at the address 0x0: its flag, not the object's, is the index.
pub count_null :
    (s : State) → check_and_count_procs_in_rcs rl_flag_file 0 s ≡ (lock_at 10 s >>= λ l. ok l.num)
unfolding check_and_count_procs_in_rcs
count_null s = refl
