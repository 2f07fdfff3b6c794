-- ===== src/Kalloc.antt =====
-- kernel/kalloc.c: the allocator of pages. The Free-List, its M-List and the transactions on free pages
-- are in the state of Trans, the recovery sections in that of RecoveryLock; the M-List is the list of
-- its addresses. What `memset` fills a page with is not kept.
pub mod Free
mod Tests
use ev.Prelude.{
  ℕ, zero, suc, ◌+◌, ◌-◌, ◌*◌, ◌/◌, ◌%◌, ◌≡◌, Bool, true, false, not, ◌&&◌, ◌||◌, List, [], ◌∷◌,
  ◌==◌, ltb, leb, if◌then◌else◌, Result, ok, panic, fault, asleep, ◌>>=◌,
}
use ev.Params.{pgsize}
use ev.RecoveryLock.Index.{rl_flag_kmem}
use ev.RecoveryLock.Locks
use ev.RecoveryLock.Locks.{Caller, enter_recovery_critical_section, exit_recovery_critical_section}
use ev.Trans
use ev.Trans.{enter_trans_run, exit_trans_run}
use ev.MList.View

-- KERNBASE + 128 MB.
abbrev pub phystop : ℕ
phystop = 0x88000000

-- `has_list` says that `mlist.run_list` is set up, `kernel_end` is where the linker put `end`.
pub record State : Type 0 where
  pub locks : Locks.State
  pub trans : Trans.State
  pub has_list : Bool
  pub kernel_end : ℕ

unfoldable pub is_page : (kernel_end : ℕ) → ℕ → Bool
is_page kernel_end pa = pa % pgsize == 0 && leb kernel_end pa && ltb pa phystop

-- The page in front of the Free-List and, from `mlistinit` on, in its M-List.
unfoldable pub put_page : Bool → ℕ → Trans.State → Trans.State
put_page has_list pa t = record t {
  run_list = if has_list then View.register pa t.run_list else t.run_list;
  freelist = pa ∷ t.freelist;
}

unfoldable pub kfree : Caller → ℕ → ℕ → State → Result State
unfolding is_page put_page
kfree c me pa s =
    if not (is_page s.kernel_end pa)
    then panic
    else enter_recovery_critical_section c rl_flag_kmem 0 s.locks >>= λ l.
        enter_trans_run me pa s.trans >>= λ t. exit_trans_run me (put_page s.has_list pa t) >>= λ u.
        exit_recovery_critical_section c rl_flag_kmem 0 l >>= λ l'.
        ok (record s { locks = l'; trans = u })

-- The page at the head, 0 where there is none.
unfoldable pub take_page : Bool → Trans.State → ℕ × Trans.State
take_page has_list t = elim t.freelist [
  | [] ↦ (0, t)
  | r ∷ rs ↦ (
    r,
    record t {
      freelist = rs;
      run_list = if has_list && not (r == 0) then View.delete r t.run_list else t.run_list;
    },
  )
]

unfoldable pub kalloc : Caller → State → Result (ℕ × State)
unfolding take_page
kalloc c s = enter_recovery_critical_section c rl_flag_kmem 0 s.locks >>= λ l.
    let (r, t) = take_page s.has_list s.trans in
    exit_recovery_critical_section c rl_flag_kmem 0 l >>= λ l'.
    ok (r, record s { locks = l'; trans = t })

unfoldable pub pgroundup : ℕ → ℕ
pgroundup a = (a + pgsize - 1) / pgsize * pgsize

-- The loop of `freerange`, on a count of rounds; `(pa_end - p) / PGSIZE` rounds are enough.
unfoldable pub free_from : Caller → ℕ → ℕ → ℕ → ℕ → State → Result State
free_from c me zero p pa_end s = ok s
free_from c me (suc k) p pa_end s =
    if leb (p + pgsize) pa_end
    then (kfree c me p s >>= λ t. free_from c me k (p + pgsize) pa_end t)
    else ok s

unfoldable pub freerange : Caller → ℕ → ℕ → ℕ → State → Result State
unfolding free_from pgroundup
freerange c me pa_start pa_end s =
    free_from c me ((pa_end - pgroundup pa_start) / pgsize) (pgroundup pa_start) pa_end s
