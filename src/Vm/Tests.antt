-- ===== src/Vm/Tests.antt =====
-- kernel/vm.c, kernel/ptdup.c and kernel/recovery_handler_pagetable.c on one user process with an empty
-- page table and five free pages.
mod Fields
use ev.Prelude.{
  ℕ, suc, ◌+◌, ◌<◌, ◌≡◌, ◌≢◌, refl, Bool, true, false, List, [], ◌∷◌, Option, none, some, replicate,
  ok, Result, upd, arith,
}
use ev.Prelude.Int.{ℤ, pos, negsuc, succ, pred, is_neg, is_pos}
use ev.RecoveryLock.Locks
use ev.RecoveryLock.Locks.{Caller, enter_recovery_critical_section, exit_recovery_critical_section}
use ev.RecoveryLock.History.{
  history, put_history, add_flag, del_flag, clear_last, close_up, has_flag,
}
use ev.Trans
use ev.Kalloc
use ev.Kalloc.{is_page}
use ev.Kalloc.Free.{IsFree}
use ev.MList.View.{contains}
use ev.MList.Pagetable.{Page}
use ev.Vm.{State, Words, Head, no_dup, pte2pa, has_v, px}
use ev.Vm.Ptdup.{search_root, ptdup_init}
use ev.Vm.Ptdup.Init.{ptdup_init-Mirror}
use ev.Vm.Walk.{walk, find_l0, next_table}
use ev.Vm.Walk.Ready.{Ready, Keeps}
use ev.Vm.Walk.Grow.{walk-Ready}
use ev.Policy.{Code, Mode}
use ev.Vm.Recovery.{recovery_l2, recovery_l1, redo_or_fail}
use ev.Vm.Recovery.Rebuilt.{corrupt, recovery_l2-Mirror}
use ev.Vm.Recovery.Level1.{recovery_l1-Mirror}
use ev.Vm.Mirror.{Mirror, Tree, Fresh, AllFresh}
use ev.Vm.Pool.{Pool}

abbrev counters : Trans.State
counters = record {
  infos = record { pid = 3; pagetable_ntrans = pos 0; log_ntrans = pos 0; run_ntrans = pos 0 } ∷ [];
  nextpid = 4;
  log_outstanding = negsuc 0;
  log_logheader = record { n = 0; block = [] };
  log_run = 0;
  lh = record { n = 0; block = [] };
  outstanding = pos 0;
  dup_lhdr = record { n = 0; block = [] };
  dup_outstanding = pos 0;
  kmem = 7;
  freelist = 0x80021000 ∷ 0x80022000 ∷ 0x80023000 ∷ 0x80024000 ∷ 0x80025000 ∷ [];
  run_list = 0x80021000 ∷ 0x80022000 ∷ 0x80023000 ∷ 0x80024000 ∷ 0x80025000 ∷ [];
}

abbrev sections : Locks.State
sections = record {
  recovery_locks = replicate 8 (record { num = pos 0; exception = 0; holder = none });
  rcs_infos = record { pid = 3; history_idx = 0 ∷ 0 ∷ 0 ∷ 0 ∷ 0 ∷ [] } ∷ [];
  indexes = record { buf_idx = []; file_idx = []; inode_idx = [] };
}

abbrev caller : Caller
caller = record { cpu = 0; noff = pos 0; pid = some 3 }

abbrev root : ℕ
root = 0x80030000

abbrev start : State
start = record {
  mem = λ page i. 0;
  pages = record { locks = sections; trans = counters; has_list = true; kernel_end = 0x80020000 };
  ptb_list = record { base = 0x80040000; words = replicate 511 0 } ∷ [];
  idx_ptdup = root ∷ replicate 65 0;
  heads = λ i. record {
    l2 = record { base = 0x80041000; word = λ j. 0 };
    l1_base = 0x80042000;
    l1 = λ j. no_dup;
    l0_ptds = record { base = 0x80043000; words = replicate 511 0 } ∷ [];
    l0_pted = record { base = 0x80044000; words = replicate 511 0 } ∷ [];
  };
}

start-IsFree : IsFree start.pages
unfolding is_page contains
start-IsFree = record {
  listed = refl;
  mirror = refl;
  distinct = (refl, (refl, (refl, (refl, (refl, tt)))));
  pages = (refl, (refl, (refl, (refl, (refl, tt)))));
  above = omega arith;
}

start-Mirror : Mirror start 0 root
unfolding has_v search_root
start-Mirror = record {
  tree = record {
    distinct = λ i j v e. absurd (ground (arith, v));
    below = λ j v. absurd (ground (arith, v));
  };
  at_idx = refl;
  level2 = λ i. refl;
  level1 = λ i v. absurd (ground (arith, v));
}

start-fresh : AllFresh start.mem root start.pages.trans.freelist
unfolding contains pte2pa
start-fresh r h = (λ e. ground (arith, h), λ i e. ground (arith, h))

start-Ready : Ready start 0 root
start-Ready = record {
  mirror = start-Mirror;
  pool = record { free = start-IsFree; fresh = start-fresh };
  user = refl;
}

abbrev outcome : Result (Option ℕ × State) → State
outcome (ok (o, t)) = t
outcome _ = start

abbrev grown : State
unfolding walk
grown = outcome (walk caller 3 root 0x5000 true start)

walk-grown : walk caller 3 root 0x5000 true start ≡ ok (some 0x80023000, grown)
unfolding walk recovery_l2 recovery_l1 Kalloc.kalloc enter_recovery_critical_section history
    exit_recovery_critical_section put_history Trans.enter_trans_pagetable Trans.index
    Trans.search_trans_info Trans.info_at Trans.exit_trans_pagetable succ pred contains search_root
    has_v
walk-grown = refl

walk-Ready_example :
    Ready grown 0 root
    × Keeps start grown root
    × ((page : ℕ) → some 0x80023000 ≡ some page → find_l0 grown.mem root 0x5000 ≡ some page)
walk-Ready_example =
    walk-Ready caller 3 0 root 0x5000 true start grown (some 0x80023000) start-Ready walk-grown

-- Every word of the broken page.
abbrev junk : Words
junk = λ i. 0xffffffff

grown-Ready : Ready grown 0 root
grown-Ready =
    (walk-Ready caller 3 0 root 0x5000 true start grown (some 0x80023000) start-Ready walk-grown).0

abbrev state_of : Result State → State
state_of (ok t) = t
state_of _ = start

abbrev with_l2 : State
unfolding walk recovery_l2
with_l2 = state_of (recovery_l2 caller 3 0 root 0x80025000 (corrupt root junk grown))

l2_run : recovery_l2 caller 3 0 root 0x80025000 (corrupt root junk grown) ≡ ok with_l2
unfolding walk recovery_l2 recovery_l1 Kalloc.kalloc enter_recovery_critical_section history
    exit_recovery_critical_section put_history Trans.enter_trans_pagetable Trans.index
    Trans.search_trans_info Trans.info_at Trans.exit_trans_pagetable succ pred contains search_root
    has_v
l2_run = refl

still_free : contains 0x80025000 grown.pages.trans.freelist ≡ true
unfolding walk recovery_l2 recovery_l1 Kalloc.kalloc enter_recovery_critical_section history
    exit_recovery_critical_section put_history Trans.enter_trans_pagetable Trans.index
    Trans.search_trans_info Trans.info_at Trans.exit_trans_pagetable succ pred contains search_root
    has_v
still_free = refl

not_known : search_root 0x80025000 grown.idx_ptdup ≡ none
unfolding walk recovery_l2 recovery_l1 Kalloc.kalloc enter_recovery_critical_section history
    exit_recovery_critical_section put_history Trans.enter_trans_pagetable Trans.index
    Trans.search_trans_info Trans.info_at Trans.exit_trans_pagetable succ pred contains search_root
    has_v
not_known = refl

recovery_l2-Mirror_example :
    Mirror with_l2 0 0x80025000
    × ((va : ℕ) → find_l0 with_l2.mem 0x80025000 va ≡ find_l0 grown.mem root va)
recovery_l2-Mirror_example =
    recovery_l2-Mirror caller 3 0 root 0x80025000 junk grown with_l2 grown-Ready.mirror
      (grown-Ready.pool.fresh 0x80025000 still_free) not_known (omega arith) l2_run

abbrev table : ℕ
table = 0x80021000

abbrev coded : Result (Code × State) → State
coded (ok (r, t)) = t
coded _ = start

abbrev with_l1 : State
unfolding walk recovery_l1
with_l1 = coded (
    recovery_l1 caller Mode.aggressive (pos 0) 3 root 0 (pte2pa (grown.mem root 0)) 0x80025000
      (corrupt (pte2pa (grown.mem root 0)) junk grown))

l1_run :
    recovery_l1 caller Mode.aggressive
      (pos 0)
      3
      root
      0
      (pte2pa (grown.mem root 0))
      0x80025000
      (corrupt (pte2pa (grown.mem root 0)) junk grown)
    ≡ ok (Code.syscall_fail, with_l1)
unfolding walk recovery_l2 recovery_l1 Kalloc.kalloc enter_recovery_critical_section history
    exit_recovery_critical_section put_history Trans.enter_trans_pagetable Trans.index
    Trans.search_trans_info Trans.info_at Trans.exit_trans_pagetable succ pred contains search_root
    has_v
l1_run = refl

l1_valid : has_v (grown.mem root 0) ≡ true
unfolding walk recovery_l2 recovery_l1 Kalloc.kalloc enter_recovery_critical_section history
    exit_recovery_critical_section put_history Trans.enter_trans_pagetable Trans.index
    Trans.search_trans_info Trans.info_at Trans.exit_trans_pagetable succ pred contains search_root
    has_v
l1_valid = refl

new_is_page : is_page 0x80020000 0x80025000 ≡ true
unfolding is_page
new_is_page = refl

recovery_l1-Mirror_example :
    (Code.syscall_fail ≡ redo_or_fail (pos 0))
    × Mirror with_l1 0 root
    × ((va : ℕ) → find_l0 with_l1.mem root va ≡ find_l0 grown.mem root va)
recovery_l1-Mirror_example =
    recovery_l1-Mirror caller Mode.aggressive (pos 0) 3 0 root 0 0x80025000 0x80020000 junk grown
      with_l1 Code.syscall_fail grown-Ready.mirror (grown-Ready.pool.fresh 0x80025000 still_free)
      new_is_page l1_valid (omega arith) l1_run

-- Without any duplicates.
abbrev unknown : State
unknown = record start { idx_ptdup = replicate 66 0 }

abbrev known : State
unfolding ptdup_init
known = state_of (ptdup_init caller root unknown)

init_run : ptdup_init caller root unknown ≡ ok known
unfolding ptdup_init Kalloc.kalloc enter_recovery_critical_section history
    exit_recovery_critical_section put_history
init_run = refl

init_free : (search_root 0 unknown.idx_ptdup ≡ some 0) × (search_root root unknown.idx_ptdup ≡ none)
unfolding search_root
init_free = (refl, refl)

ptdup_init-Mirror_example : Mirror known 0 root
ptdup_init-Mirror_example =
    ptdup_init-Mirror caller root 0 unknown known init_free.0 init_free.1 (λ e. omega arith)
      (λ i. refl) init_run
