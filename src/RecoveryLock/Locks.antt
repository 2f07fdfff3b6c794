-- ===== src/RecoveryLock/Locks.antt =====
-- kernel/recovery_locking.c: entering and leaving the sections, and the recovery locks. The inner
-- lock `lk` makes each function one step; what sleeps or spins ends `asleep` and changes nothing.
pub mod Exclusion
pub mod Balance
mod Tests
use ev.Prelude.{
  ℕ, zero, suc, ◌+◌, ◌≡◌, Bool, true, false, ◌&&◌, ◌||◌, not, List, [], ◌∷◌, Option, none, some,
  ◌==◌, ltb, leb, if◌then◌else◌, get_elem?, set, Result, ok, panic, fault, asleep, ◌>>=◌,
}
use ev.Prelude.Int.{ℤ, pos, negsuc, succ, pred, is_neg, is_pos}
use ev.RecoveryLock.Index.{
  Kind, Indexes, search_recovery_idx, update_recovery_lock_idx, rl_nflags, rl_flag_bcache,
  rl_flag_cons, rl_flag_ftable, rl_flag_icache, rl_flag_pr, rl_flag_log, rl_flag_buf, rl_flag_file,
  rl_flag_inode,
}
use ev.RecoveryLock.History.{
  RcsInfo, history, put_history, add_flag, has_flag, del_flag, rcs_info_history_size,
}
use ev.Prelude.{replicate}

-- `struct recovery_lock`; the holder is the cpu of a spinlock that is taken.
pub record RecoveryLock : Type 0 where
  pub num : ℤ
  pub exception : ℕ
  pub holder : Option ℕ

pub record State : Type 0 where
  pub recovery_locks : List RecoveryLock
  pub rcs_infos : List RcsInfo
  pub indexes : Indexes

-- The cpu that runs the function, its `noff`, and the process on it, if there is one.
pub record Caller : Type 0 where
  pub cpu : ℕ
  pub noff : ℤ
  pub pid : Option ℕ

abbrev pub icache_fork : ℕ
icache_fork = 2

-- `locking` and `holding` of a spinlock.
unfoldable pub locking : RecoveryLock → Bool
locking l = elim l.holder [ none ↦ false | some k ↦ true ]

unfoldable pub holding : ℕ → RecoveryLock → Bool
holding cpu l = elim l.holder [ none ↦ false | some k ↦ k == cpu ]

-- `&recovery_locks[flag]` after the range test, which lets `RL_FLAG_MAX` itself pass.
unfoldable pub lock_at : ℕ → State → Result RecoveryLock
lock_at flag s =
    if ltb rl_nflags flag
    then panic
    else elim (get_elem? s.recovery_locks flag) [ none ↦ fault | some l ↦ ok l ]

unfoldable pub put_lock : State → ℕ → RecoveryLock → State
put_lock s flag l = record s { recovery_locks = set s.recovery_locks flag l }

-- `add_rcs_history` and `del_rcs_history`: a process without an entry ends in `panic`.
unfoldable pub record_history : (ℕ → List ℕ → List ℕ) → Option ℕ → ℕ → State → Result State
record_history change none flag s = ok s
record_history change (some pid) flag s = elim (history pid s.rcs_infos) [
  | none ↦ panic
  | some h ↦ ok (record s { rcs_infos = put_history pid (change flag h) s.rcs_infos })
]

-- The part under `lk`: the holder of the recovery lock goes through without being counted. A caller
-- within a section without interrupts does not sleep: `sched` panics.
unfoldable pub enter_locked : Caller → ℕ → ℕ → RecoveryLock → State → Result State
unfolding holding locking put_lock
enter_locked c flag exception l s =
    if holding c.cpu l
    then ok s
    else if locking l
    then (if exception == icache_fork then panic else if is_pos c.noff then panic else asleep)
    else ok (
        put_lock s flag (record l {
          num = succ l.num;
          exception = if exception == 0 then l.exception else exception;
        }))

-- The tests at the start of both functions, and the recovery lock of the flag.
unfoldable pub section_lock : Caller → ℕ → State → Result RecoveryLock
unfolding lock_at
section_lock c flag s =
    if ltb rl_nflags flag then panic else if is_neg c.noff then panic else lock_at flag s

unfoldable pub enter_recovery_critical_section : Caller → ℕ → ℕ → State → Result State
unfolding section_lock enter_locked record_history
enter_recovery_critical_section c flag exception s = section_lock c flag s >>= λ l.
    enter_locked c flag exception l s >>= record_history add_flag c.pid flag

unfoldable pub enter_recovery_critical_section_nodes : Caller → Kind → ℕ → State → Result State
unfolding holding locking
enter_recovery_critical_section_nodes c k addr s = elim (search_recovery_idx k addr s.indexes) [
  | none ↦ panic
  | some flag ↦ elim (get_elem? s.recovery_locks flag) [
    | none ↦ fault
    | some l ↦
        if locking l && not (holding c.cpu l)
        then panic
        else enter_recovery_critical_section c flag 0 s
  ]
]

-- Leaving counts down also for the holder of the recovery lock.
unfoldable pub exit_recovery_critical_section : Caller → ℕ → ℕ → State → Result State
unfolding section_lock put_lock record_history
exit_recovery_critical_section c flag exception s = section_lock c flag s >>= λ l.
    record_history del_flag c.pid flag (
      put_lock s flag (record l {
        num = pred l.num;
        exception = if l.exception == exception then 0 else l.exception;
      }))

unfoldable pub exit_recovery_critical_section_nodes : Caller → Kind → ℕ → State → Result State
exit_recovery_critical_section_nodes c k addr s = elim (search_recovery_idx k addr s.indexes) [
  | none ↦ panic
  | some flag ↦ exit_recovery_critical_section c flag 0 s
]

-- The loop of `exit_recovery_critical_section_all`: every place of the history counts its flag
-- down, an empty one the flag 0.
unfoldable pub count_down : List ℕ → List RecoveryLock → Result (List RecoveryLock)
count_down [] ls = ok ls
count_down (flag ∷ h) ls = elim (get_elem? ls flag) [
  | none ↦ fault
  | some l ↦ count_down h (set ls flag (record l { num = pred l.num }))
]

unfoldable pub exit_recovery_critical_section_all : ℕ → State → Result State
unfolding count_down
exit_recovery_critical_section_all pid s = elim (history pid s.rcs_infos) [
  | none ↦ panic
  | some h ↦ count_down h s.recovery_locks >>= λ ls. ok (record s {
    recovery_locks = ls;
    rcs_infos = put_history pid (replicate rcs_info_history_size 0) s.rcs_infos;
  })
]

-- The `intr` of `exit_rcs_after_recovery`.
pub data Intr : Type 0 where
  consintr_cons consintr_pr clckintr_tickslock none_of_these : Intr

unfoldable pub exit_rcs_after_recovery : Caller → ℕ → Intr → State → Result State
exit_rcs_after_recovery c pid Intr.consintr_cons s =
    exit_recovery_critical_section c rl_flag_cons 0 s
exit_rcs_after_recovery c pid Intr.consintr_pr s =
    exit_recovery_critical_section c rl_flag_pr 0 s
    >>= exit_recovery_critical_section c rl_flag_cons 0
exit_rcs_after_recovery c pid Intr.clckintr_tickslock s = ok s
exit_rcs_after_recovery c pid Intr.none_of_these s = exit_recovery_critical_section_all pid s

-- `acquire` of a spinlock panics when this cpu holds it, and spins while another one does.
unfoldable pub acquire_recovery_lock : ℕ → ℕ → State → Result State
unfolding lock_at holding locking put_lock
acquire_recovery_lock cpu flag s = lock_at flag s >>= λ l.
    if holding cpu l
    then panic
    else if locking l
    then asleep
    else ok (put_lock s flag (record l { holder = some cpu }))

abbrev pub giant_flag : Kind → ℕ
giant_flag Kind.buf = rl_flag_bcache
giant_flag Kind.file = rl_flag_ftable
giant_flag Kind.inode = rl_flag_icache

-- `acquire_recovery_lock_buf`, `_file` and `_inode`.
unfoldable pub acquire_recovery_lock_node : ℕ → Kind → ℕ → State → Result State
acquire_recovery_lock_node cpu k addr s = elim (search_recovery_idx k addr s.indexes) [
  | none ↦ panic
  | some flag ↦
      if ltb rl_nflags flag
      then panic
      else acquire_recovery_lock cpu (giant_flag k) s >>= acquire_recovery_lock cpu flag
]

unfoldable pub release_recovery_lock : ℕ → ℕ → State → Result State
unfolding lock_at holding put_lock
release_recovery_lock cpu flag s = lock_at flag s >>= λ l.
    if holding cpu l then ok (put_lock s flag (record l { holder = none })) else panic

-- `release_recovery_lock_buf`, `_file` and `_inode`; the last two fill their index table again.
unfoldable pub release_recovery_lock_node : (ℕ → ℕ) → (ℕ → ℕ) → ℕ → Kind → ℕ → State → Result State
release_recovery_lock_node file_at inode_at cpu k addr s =
    elim (search_recovery_idx k addr s.indexes) [
      | none ↦ panic
      | some flag ↦
          if ltb rl_nflags flag
          then panic
          else release_recovery_lock cpu (giant_flag k) (record s { indexes = refilled k })
            >>= release_recovery_lock cpu flag
    ]
  where
    refilled : Kind → Indexes
    refilled Kind.buf = s.indexes
    refilled Kind.file = update_recovery_lock_idx file_at inode_at Kind.file 0 0 s.indexes
    refilled Kind.inode = update_recovery_lock_idx file_at inode_at Kind.inode 0 0 s.indexes

-- What `search_recovery_idx` makes of a flag.
abbrev pub kind_of : ℕ → Option Kind
kind_of flag =
    if flag == rl_flag_buf
    then some Kind.buf
    else if flag == rl_flag_file
    then some Kind.file
    else if flag == rl_flag_inode
    then some Kind.inode
    else none

-- A search that finds nothing gives the index -1, a fault. With the address 0x0 the flag itself is
-- the index, also for the three kinds.
unfoldable pub check_and_count_procs_in_rcs : ℕ → ℕ → State → Result ℤ
unfolding lock_at
check_and_count_procs_in_rcs flag addr s =
    if ltb rl_nflags flag
    then panic
    else if leb rl_flag_buf flag && not (addr == 0)
    then elim (kind_of flag) [
      | none ↦ fault
      | some k ↦ elim (search_recovery_idx k addr s.indexes) [
        | none ↦ fault
        | some f ↦ lock_at f s >>= λ l. ok l.num
      ]
    ]
    else lock_at flag s >>= λ l. ok l.num

-- The int result is a test of the caller's loop.
unfoldable pub check_proc_in_log_commit : ℕ → State → Result (State × Bool)
unfolding lock_at put_lock
check_proc_in_log_commit pid s = lock_at rl_flag_log s >>= λ l.
    if l.exception == pid
    then ok (put_lock s rl_flag_log (record l { exception = 0 }), false)
    else if is_neg l.num
    then panic
    else ok (s, not (l.exception == 0))
