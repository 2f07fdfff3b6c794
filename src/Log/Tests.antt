-- ===== src/Log/Tests.antt =====
-- kernel/log.c on a small disk: the header in block 2, three log blocks behind it.
use ev.Prelude.{
  upd, ◌≡◌, ◌⊎◌, inl, refl, false, [], ◌∷◌, none, some, ◌==◌, if◌then◌else◌, replicate, All, arith,
  ok,
}
use ev.Prelude.Int.{pos, negsuc, succ, pred}
use ev.Bcache.{up}
use ev.Params.{LogHeader}
use ev.RecoveryLock.Locks
use ev.RecoveryLock.Locks.{
  Caller, RecoveryLock, enter_recovery_critical_section, exit_recovery_critical_section,
}
use ev.RecoveryLock.History.{
  history, put_history, add_flag, del_flag, clear_last, close_up, has_flag,
}
use ev.Trans
use ev.Trans.{TransInfo, enter_trans_log, exit_trans_log, index, search_trans_info, info_at}
use ev.Log.{
  Block, Disk, State, live, take, header_n, commit, log_write, log_write_locked, slot, put_block,
  begin_op, no_space, with_outstanding,
}
use ev.Log.Disk.{mem, is_home, Homes}
use ev.Log.Crash.{IsAtomic, IsNew, commit-IsAtomic}
use ev.Log.Recover.{CanEnter, Recovers, recover-IsAtomic}
use ev.Log.Absorb.{log_write-absorb}

abbrev zeros : Block
zeros = 0 ∷ 0 ∷ 0 ∷ 0 ∷ []

abbrev empty : Disk
empty b = zeros

abbrev edited : Disk
edited b = if b == 45 then 7 ∷ 7 ∷ 7 ∷ 7 ∷ [] else if b == 46 then 8 ∷ 8 ∷ 8 ∷ 8 ∷ [] else zeros

abbrev header : LogHeader
header = record { n = 2; block = 45 ∷ 46 ∷ 0 ∷ [] }

abbrev counters : Trans.State
counters = record {
  infos = record { pid = 3; pagetable_ntrans = pos 0; log_ntrans = pos 0; run_ntrans = pos 0 } ∷ [];
  nextpid = 4;
  log_outstanding = negsuc 0;
  log_logheader = record { n = 0; block = [] };
  log_run = 0;
  lh = header;
  outstanding = pos 1;
  dup_lhdr = header;
  dup_outstanding = pos 1;
  kmem = 7;
  freelist = [];
  run_list = [];
}

abbrev free : RecoveryLock
free = record { num = pos 0; exception = 0; holder = none }

abbrev sections : Locks.State
sections = record {
  recovery_locks = replicate 8 free;
  rcs_infos = record { pid = 3; history_idx = 0 ∷ 0 ∷ 0 ∷ 0 ∷ 0 ∷ [] } ∷ [];
  indexes = record { buf_idx = []; file_idx = []; inode_idx = [] };
}

abbrev caller : Caller
caller = record { cpu = 0; noff = pos 0; pid = some 3 }

-- One operation has written blocks 45 and 46.
abbrev before : State
before = record {
  locks = sections;
  trans = counters;
  committing = false;
  start = 2;
  size = 6;
  refcnt = λ b. 1;
  cache = edited;
  disk = empty;
  disks = [];
}

before_live : live before.trans.lh ≡ ok (45 ∷ 46 ∷ [])
unfolding live take
before_live = refl

before-Homes : Homes 2 3 (45 ∷ 46 ∷ [])
unfolding mem is_home
before-Homes b m = ground arith

commit-IsAtomic_example :
    (t : State) × (commit before ≡ ok t)
    × All (IsAtomic before (45 ∷ 46 ∷ []) 3) t.disks
    × IsNew before (45 ∷ 46 ∷ []) 3 t.disk
unfolding header_n
commit-IsAtomic_example =
    commit-IsAtomic before (45 ∷ 46 ∷ []) 3 before_live (omega arith) before-Homes (omega arith)
      (omega arith) refl tt

-- The kernel starts again, with nothing of the two blocks on the disk.
abbrev restarted : State
restarted = record before { cache = empty }

restarted-CanEnter : CanEnter 3 restarted.trans
unfolding index search_trans_info
restarted-CanEnter = (
  0,
  record { pid = 3; pagetable_ntrans = pos 0; log_ntrans = pos 0; run_ntrans = pos 0 },
  refl,
  refl,
  refl,
)

recover-IsAtomic_example :
    Recovers before 3 3 restarted before.disk
    ⊎ Recovers before 3 3 restarted
        (λ b. if mem b (45 ∷ 46 ∷ []) then before.cache b else before.disk b)
unfolding header_n
recover-IsAtomic_example =
    recover-IsAtomic before (45 ∷ 46 ∷ []) 3 3 restarted restarted-CanEnter refl refl before-Homes
      (omega arith) (omega arith) (omega arith) (inl (refl, λ b h. refl))

abbrev grown : LogHeader
grown = record { n = 3; block = 45 ∷ 46 ∷ 70 ∷ [] }

abbrev roomy : State
roomy = record before { size = 31 }

abbrev written : State
written = record roomy {
  trans = record counters {
    lh = grown;
    dup_lhdr = grown;
    log_logheader = header;
    log_outstanding = negsuc 0;
  };
  refcnt = upd (λ b. 1) 70 2;
}

written_run : log_write caller 3 70 roomy ≡ ok written
unfolding log_write log_write_locked live take slot put_block succ pred enter_trans_log
    exit_trans_log index search_trans_info info_at enter_recovery_critical_section
    exit_recovery_critical_section history put_history add_flag del_flag clear_last close_up
    has_flag up
written_run = refl

log_write-absorb_example :
    (live written.trans.lh ≡ ok (45 ∷ 46 ∷ 70 ∷ [])) × (written.trans.dup_lhdr ≡ written.trans.lh)
unfolding mem
log_write-absorb_example =
    log_write-absorb caller 3 70 roomy written (45 ∷ 46 ∷ []) before_live refl written_run

abbrev begun : State
begun = record before { trans = with_outstanding succ counters }

begun_run : begin_op caller before ≡ ok begun
unfolding begin_op no_space with_outstanding succ pred enter_recovery_critical_section
    exit_recovery_critical_section history put_history add_flag del_flag clear_last close_up
    has_flag
begun_run = refl
