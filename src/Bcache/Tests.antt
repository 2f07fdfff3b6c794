-- ===== src/Bcache/Tests.antt =====
-- kernel/bio.c with three buffers: a block read, written in the buffer, released and read again, and
-- the recycling of the least recently released one.
use ev.Prelude.{
  ℕ, ◌≡◌, refl, sym, true, false, List, [], ◌∷◌, none, some, replicate, arith, Result, ok, panic,
  fault, asleep, if◌then◌else◌, ◌==◌,
}
use ev.Prelude.Int.{pos, succ, pred}
use ev.RecoveryLock.Locks
use ev.RecoveryLock.Locks.{
  Caller, enter_recovery_critical_section, exit_recovery_critical_section,
  enter_recovery_critical_section_nodes, exit_recovery_critical_section_nodes,
}
use ev.RecoveryLock.History.{
  history, put_history, add_flag, del_flag, clear_last, close_up, has_flag,
}
use ev.RecoveryLock.Index.{search_recovery_idx, search_idx}
use ev.MList.View
use ev.MList.View.{contains}
use ev.Sleeplock.{acquiresleep, releasesleep, holdingsleep}
use ev.Bcache.{
  Buf, State, find_cached, find_unused, bget, bget_cached, bget_recycle, recycle, lock_buf, bpin,
  bread, read_block, brelse, put_back, up, down, is_for,
}
use ev.Bcache.Unique.{IsUnique}
use ev.Bcache.Reuse.{bread-brelse}

abbrev sections : Locks.State
sections = record {
  recovery_locks = replicate 20 (record { num = pos 0; exception = 0; holder = none });
  rcs_infos = record { pid = 3; history_idx = 0 ∷ 0 ∷ 0 ∷ 0 ∷ 0 ∷ [] } ∷ [];
  indexes = record {
    buf_idx =
        record { flag = 9; addr = 1 }
        ∷ record { flag = 10; addr = 2 }
        ∷ record { flag = 11; addr = 3 }
        ∷ [];
    file_idx = [];
    inode_idx = [];
  };
}

abbrev caller : Caller
caller = record { cpu = 0; noff = pos 0; pid = some 3 }

abbrev unused : Buf
unused = record {
  valid = false;
  dev = 0;
  blockno = 0;
  lock = record { locked = false; pid = 0 };
  refcnt = 0;
  words = [];
}

abbrev blocks : ℕ → List ℕ
blocks n = n ∷ []

abbrev boot : State
boot = record { locks = sections; bufs = λ b. unused; order = 3 ∷ 2 ∷ 1 ∷ []; disk = blocks }

abbrev given : Result (ℕ × State) → State
given (ok (b, t)) = t
given panic = boot
given fault = boot
given asleep = boot

abbrev left : Result State → State
left (ok t) = t
left panic = boot
left fault = boot
left asleep = boot

-- Block 7 read into the oldest buffer, which the process then changes.
abbrev read : State
read = given (bread caller 3 1 7 boot)

read_ok : bread caller 3 1 7 boot ≡ ok (1, read)
unfolding bread bget find_cached is_for find_unused bget_recycle recycle lock_buf acquiresleep
    read_block succ pred enter_recovery_critical_section exit_recovery_critical_section
    enter_recovery_critical_section_nodes history put_history add_flag del_flag clear_last close_up
    has_flag search_recovery_idx search_idx
read_ok = refl

abbrev written : State
written = record {
  locks = read.locks;
  bufs = λ b.
      if b == 1
      then record {
        valid = true;
        dev = 1;
        blockno = 7;
        lock = record { locked = true; pid = 3 };
        refcnt = 1;
        words = 70 ∷ [];
      }
      else unused;
  order = 3 ∷ 2 ∷ 1 ∷ [];
  disk = blocks;
}

abbrev released : State
released = left (brelse caller 3 1 written)

released_ok : brelse caller 3 1 written ≡ ok released
unfolding bread bget find_cached is_for find_unused bget_recycle recycle lock_buf acquiresleep
    read_block succ pred enter_recovery_critical_section exit_recovery_critical_section
    enter_recovery_critical_section_nodes history put_history add_flag del_flag clear_last close_up
    has_flag search_recovery_idx search_idx brelse put_back holdingsleep releasesleep
    exit_recovery_critical_section_nodes
released_ok = refl

front : released.order ≡ 1 ∷ 3 ∷ 2 ∷ []
unfolding bread bget find_cached is_for find_unused bget_recycle recycle lock_buf acquiresleep
    read_block succ pred enter_recovery_critical_section exit_recovery_critical_section
    enter_recovery_critical_section_nodes history put_history add_flag del_flag clear_last close_up
    has_flag search_recovery_idx search_idx brelse put_back holdingsleep releasesleep
    exit_recovery_critical_section_nodes down View.delete
front = refl

abbrev again : State
again = given (bread caller 4 1 7 released)

again_ok : bread caller 4 1 7 released ≡ ok (1, again)
unfolding bread bget find_cached is_for find_unused bget_recycle recycle lock_buf acquiresleep
    read_block succ pred enter_recovery_critical_section exit_recovery_critical_section
    enter_recovery_critical_section_nodes history put_history add_flag del_flag clear_last close_up
    has_flag search_recovery_idx search_idx brelse put_back holdingsleep releasesleep
    exit_recovery_critical_section_nodes down View.delete bget_cached bpin up
again_ok = refl

got_ok : bget caller 3 1 7 boot ≡ ok (1, given (bget caller 3 1 7 boot))
unfolding bget find_cached is_for find_unused bget_recycle recycle lock_buf acquiresleep succ pred
    enter_recovery_critical_section exit_recovery_critical_section
    enter_recovery_critical_section_nodes history put_history add_flag del_flag clear_last close_up
    has_flag search_recovery_idx search_idx
got_ok = refl

boot-IsUnique : IsUnique boot
boot-IsUnique dev n a b nz (m, d, k) cb = absurd (nz (sym d))

written-IsUnique : IsUnique written
written-IsUnique dev n a b nz (m, d, k) (m', d', k') = ground arith

in_list : contains 1 written.order ≡ true
unfolding contains
in_list = refl

bread-brelse_example :
    (◌≡◌ {A = ℕ} 1 1)
    × ((again.bufs 1).words ≡ (written.bufs 1).words)
    × (again.disk ≡ written.disk)
bread-brelse_example =
    bread-brelse caller caller 3 4 1 7 1 1 written released again written-IsUnique (omega arith)
      (in_list, refl, refl) refl released_ok again_ok
