-- ===== src/Kalloc/Tests.antt =====
-- kernel/kalloc.c with one free page, a second one freed and taken again.
use ev.Prelude.{◌≡◌, refl, true, [], ◌∷◌, none, some, replicate, arith, ok}
use ev.Prelude.Int.{pos, negsuc, succ, pred}
use ev.RecoveryLock.Locks
use ev.RecoveryLock.Locks.{Caller, enter_recovery_critical_section, exit_recovery_critical_section}
use ev.RecoveryLock.History.{
  history, put_history, add_flag, del_flag, clear_last, close_up, has_flag,
}
use ev.Trans
use ev.Trans.{enter_trans_run, exit_trans_run, index, search_trans_info, info_at}
use ev.MList.View
use ev.MList.View.{contains}
use ev.Kalloc.{State, is_page, kfree, kalloc, put_page, take_page}
use ev.Kalloc.Free.{IsFree, Taken, kfree-IsFree, kalloc-IsFree}

abbrev counters : Trans.State
counters = record {
  infos = record { pid = 3; pagetable_ntrans = pos 0; log_ntrans = pos 0; run_ntrans = pos 0 } ∷ [];
  nextpid = 4;
  log_outstanding = negsuc 0;
  log_logheader = record { n = 0; block = [] };
  log_run = 0;
  lh = record { n = 0; block = [] };
  outstanding = pos 0;
  dup_lhdr = record { n = 0; block = [] };
  dup_outstanding = pos 0;
  kmem = 7;
  freelist = 0x80021000 ∷ [];
  run_list = 0x80021000 ∷ [];
}

abbrev sections : Locks.State
sections = record {
  recovery_locks = replicate 8 (record { num = pos 0; exception = 0; holder = none });
  rcs_infos = record { pid = 3; history_idx = 0 ∷ 0 ∷ 0 ∷ 0 ∷ 0 ∷ [] } ∷ [];
  indexes = record { buf_idx = []; file_idx = []; inode_idx = [] };
}

abbrev caller : Caller
caller = record { cpu = 0; noff = pos 0; pid = some 3 }

abbrev one : State
one = record { locks = sections; trans = counters; has_list = true; kernel_end = 0x80020000 }

abbrev both : State
both = record one {
  trans = record counters {
    freelist = 0x80022000 ∷ 0x80021000 ∷ [];
    run_list = 0x80022000 ∷ 0x80021000 ∷ [];
  };
}

one-IsFree : IsFree one
unfolding is_page contains
one-IsFree = record {
  listed = refl;
  mirror = refl;
  distinct = (refl, tt);
  pages = (refl, tt);
  above = omega arith;
}

freed : kfree caller 3 0x80022000 one ≡ ok both
unfolding kfree is_page put_page enter_trans_run exit_trans_run index search_trans_info info_at succ
    pred enter_recovery_critical_section exit_recovery_critical_section history put_history add_flag
    del_flag clear_last close_up has_flag View.register contains
freed = refl

taken : kalloc caller both ≡ ok (0x80022000, one)
unfolding kalloc take_page succ pred enter_recovery_critical_section exit_recovery_critical_section
    history put_history add_flag del_flag clear_last close_up has_flag View.delete
taken = refl

kfree-IsFree_example : IsFree both
unfolding contains
kfree-IsFree_example = kfree-IsFree caller 3 0x80022000 one both one-IsFree refl freed

kalloc-IsFree_example :
    IsFree one × Taken 0x80020000 0x80022000 (0x80022000 ∷ 0x80021000 ∷ []) (0x80021000 ∷ [])
kalloc-IsFree_example = kalloc-IsFree caller both one 0x80022000 kfree-IsFree_example taken
