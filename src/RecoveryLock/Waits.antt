-- ===== src/RecoveryLock/Waits.antt =====
-- kernel/recovery_locking.c: how the recovery of a file waits for the processes in its sections. `asleep`
-- stands for the loop that runs until they have left.
use ev.Prelude.{
  ℕ, suc, Bool, true, false, List, [], ◌∷◌, Option, none, some, ◌==◌, if◌then◌else◌, Result, ok,
  panic, asleep, ◌>>=◌,
}
use ev.Prelude.Int.{ℤ, pos, negsuc, pred, is_pos}
use ev.RecoveryLock.Index.{rl_flag_file, rl_flag_inode, rl_flag_ftable}
use ev.RecoveryLock.History.{RcsInfo, history, has_flag}
use ev.RecoveryLock.Locks.{State, check_and_count_procs_in_rcs}
use ev.Tracker.Queue.{NmiInfo}

unfoldable pub check_proc_in_target_rcs : ℕ → ℕ → List RcsInfo → Result Bool
unfolding history has_flag
check_proc_in_target_rcs pid flag rs = elim (history pid rs) [
  | none ↦ panic
  | some h ↦ ok (has_flag flag h)
]

-- The loop over the places of the queue, with `np` so far.
unfoldable pub count_waiting : ℕ → ℕ → List NmiInfo → List RcsInfo → Result ℕ
unfolding check_proc_in_target_rcs
count_waiting flag np [] rs = ok np
count_waiting flag np (q ∷ qs) rs = elim (q.addr == 0) [
  | true ↦ count_waiting flag np qs rs
  | false ↦ check_proc_in_target_rcs q.pid flag rs >>= λ inside.
      count_waiting flag (if inside then suc np else np) qs rs
]

-- `none` is a null `nmi_queue`.
unfoldable pub check_waiting_procs_in_nmi_queue :
    ℕ → Option (List NmiInfo) → List RcsInfo → Result ℕ
unfolding count_waiting
check_waiting_procs_in_nmi_queue flag none rs = panic
check_waiting_procs_in_nmi_queue flag (some queue) rs = count_waiting flag 0 queue rs

-- `num - np == 0`.
unfoldable pub all_wait : ℤ → ℕ → Bool
all_wait (pos num) np = num == np
all_wait (negsuc num) np = false

-- `true` is FAIL_STOP; 0 is the address of no inode.
unfoldable pub check_and_wait_procs_in_rcs_file :
    (f ip : ℕ) → Option (List NmiInfo) → State → Result Bool
unfolding check_waiting_procs_in_nmi_queue all_wait check_and_count_procs_in_rcs
check_and_wait_procs_in_rcs_file f ip queue s =
    check_and_count_procs_in_rcs rl_flag_file f s >>= λ n.
    (if is_pos (pred n)
      then ok true
      else if ip == 0
      then ok false
      else check_and_count_procs_in_rcs rl_flag_inode ip s >>= λ m. ok (is_pos (pred m)))
    >>= λ stop.
        if stop
        then ok true
        else check_and_count_procs_in_rcs rl_flag_ftable 0 s >>= λ num.
            check_waiting_procs_in_nmi_queue rl_flag_ftable queue s.rcs_infos >>= λ np.
            if all_wait num np then ok false else asleep
