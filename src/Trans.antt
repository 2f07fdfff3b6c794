-- ===== src/Trans.antt =====
-- kernel/trans.c: the transaction counters of each process, which tell a recovery handler whether
-- the process that met the memory error stood between an update and the update of its replica.
-- A pointer is its address; the Free-List and the M-List of runs are the lists of their addresses.
pub mod Invariant
pub mod Nesting
pub mod Rollback
mod Tests
use ev.Prelude.{
  ℕ, suc, ◌+◌, ◌≡◌, Bool, true, false, ◌&&◌, List, [], ◌∷◌, Option, none, some, ltb, ◌==◌, not,
  if◌then◌else◌, get_elem?, set, Result, ok, panic, fault, ◌>>=◌,
}
use ev.Prelude.Int.{ℤ, pos, negsuc, succ, pred, is_neg, is_pos}
use ev.Params.{LogHeader}
use ev.MList.View

-- `struct trans_info`.
pub record TransInfo : Type 0 where
  pub pid : ℕ
  pub pagetable_ntrans : ℤ
  pub log_ntrans : ℤ
  pub run_ntrans : ℤ

-- The variables of trans.c with what they shadow: `log`, its replica, `kmem` and the M-List of runs.
pub record State : Type 0 where
  pub infos : List TransInfo
  pub nextpid : ℕ
  pub log_outstanding : ℤ
  pub log_logheader : LogHeader
  pub log_run : ℕ
  pub lh : LogHeader
  pub outstanding : ℤ
  pub dup_lhdr : LogHeader
  pub dup_outstanding : ℤ
  pub kmem : ℕ
  pub freelist : List ℕ
  pub run_list : List ℕ

pub data Target : Type 0 where
  trans_log trans_pagetable trans_run other : Target

-- The first free entry takes the pid; its counters stay as they are.
unfoldable pub register_trans_info : ℕ → List TransInfo → List TransInfo
register_trans_info pid [] = []
register_trans_info pid (t ∷ ts) =
    if t.pid == 0 then record t { pid = pid } ∷ ts else t ∷ register_trans_info pid ts

-- Every entry of the pid is marked unused.
unfoldable pub delete_trans_info : ℕ → List TransInfo → List TransInfo
delete_trans_info pid [] = []
delete_trans_info pid (t ∷ ts) =
    (if t.pid == pid then record t { pid = 0 } else t) ∷ delete_trans_info pid ts

-- The loop runs on after a match, so the last entry counts; `none` is -1.
unfoldable pub search_from : ℕ → List TransInfo → ℕ → Option ℕ → Option ℕ
search_from pid [] i ret = ret
search_from pid (t ∷ ts) i ret = search_from pid ts (suc i) (if t.pid == pid then some i else ret)

unfoldable pub search_trans_info : ℕ → List TransInfo → Option ℕ
unfolding search_from
search_trans_info pid ts = search_from pid ts 0 none

-- Before the second process exists, entry 0 stands for the boot code.
unfoldable pub index : ℕ → State → Option ℕ
index me s = if ltb 2 s.nextpid then search_trans_info me s.infos else some 0

-- `&trans_info_array.array[idx]`, a fault at -1.
unfoldable pub info_at : Option ℕ → State → Result (ℕ × TransInfo)
info_at none s = fault
info_at (some i) s = elim (get_elem? s.infos i) [ none ↦ fault | some t ↦ ok (i, t) ]

unfoldable pub put : State → ℕ → TransInfo → State
put s i t = record s { infos = set s.infos i t }

unfoldable pub enter_trans_log : ℕ → State → Result State
unfolding put
enter_trans_log me s = info_at (index me s) s >>= λ (i, t).
    if is_neg t.log_ntrans
    then panic
    else ok (record s {
      infos = set s.infos i (record t { log_ntrans = succ t.log_ntrans });
      log_logheader = s.lh;
      log_outstanding = s.outstanding;
    })

unfoldable pub exit_trans_log : ℕ → State → Result State
exit_trans_log me s = info_at (index me s) s >>= λ (i, t).
    if is_pos t.log_ntrans
    then ok (record s {
      infos = set s.infos i (record t { log_ntrans = pred t.log_ntrans });
      log_outstanding = negsuc 0;
    })
    else panic

-- Without an entry these two print a message and return.
unfoldable pub enter_trans_pagetable : ℕ → State → Result State
unfolding put
enter_trans_pagetable me s = elim (index me s) [
  | none ↦ ok s
  | some j ↦ info_at (some j) s >>= λ (i, t).
      if is_neg t.pagetable_ntrans
      then panic
      else ok (put s i (record t { pagetable_ntrans = succ t.pagetable_ntrans }))
]

unfoldable pub exit_trans_pagetable : ℕ → State → Result State
unfolding put
exit_trans_pagetable me s = elim (index me s) [
  | none ↦ ok s
  | some j ↦ info_at (some j) s >>= λ (i, t).
      if is_pos t.pagetable_ntrans
      then ok (put s i (record t { pagetable_ntrans = pred t.pagetable_ntrans }))
      else panic
]

unfoldable pub enter_trans_run : ℕ → ℕ → State → Result State
enter_trans_run me addr s = info_at (index me s) s >>= λ (i, t).
    if is_neg t.run_ntrans
    then panic
    else ok (record s {
      infos = set s.infos i (record t { run_ntrans = succ t.run_ntrans });
      log_run = addr;
    })

unfoldable pub exit_trans_run : ℕ → State → Result State
exit_trans_run me s = info_at (index me s) s >>= λ (i, t).
    if is_pos t.run_ntrans
    then ok (record s {
      infos = set s.infos i (record t { run_ntrans = pred t.run_ntrans });
      log_run = 0;
    })
    else panic

unfoldable pub counter : Target → TransInfo → ℤ
counter trans_log t = t.log_ntrans
counter trans_pagetable t = t.pagetable_ntrans
counter trans_run t = t.run_ntrans
counter other t = negsuc 0

unfoldable pub check_inside_trans : Target → ℕ → State → Result ℤ
unfolding counter
check_inside_trans target pid s =
    info_at (search_trans_info pid s.infos) s >>= λ (i, t). ok (counter target t)

-- The handlers return their int beside the state.
unfoldable pub check_and_handle_trans_log : ℕ → State → Result (State × ℤ)
check_and_handle_trans_log pid s = check_inside_trans trans_log pid s >>= λ ntrans.
    if is_pos ntrans
    then ok (
      record s {
        lh = s.log_logheader;
        dup_lhdr = s.log_logheader;
        dup_outstanding = s.log_outstanding;
      },
      pos 0,
    )
    else if is_neg ntrans
    then ok (s, negsuc 0)
    else ok (s, pos 0)

unfoldable pub check_and_handle_trans_logheader : ℕ → State → Result (State × ℤ)
check_and_handle_trans_logheader pid s = check_inside_trans trans_log pid s >>= λ ntrans.
    if is_pos ntrans
    then ok (
      record s {
        dup_lhdr = s.log_logheader;
        dup_outstanding = if is_neg s.log_outstanding then s.dup_outstanding else s.log_outstanding;
      },
      pos 0,
    )
    else if is_neg ntrans
    then ok (s, negsuc 0)
    else ok (s, pos 0)

unfoldable pub check_and_handle_trans_pagetable : ℕ → State → Result ℤ
check_and_handle_trans_pagetable pid s = check_inside_trans trans_pagetable pid s >>= λ ntrans.
    if is_pos ntrans then ok (pos 1) else if is_neg ntrans then ok (negsuc 0) else ok (pos 0)

-- The recovering process `me` leaves its own transaction, for the counter of `pid` see the caller.
unfoldable pub check_and_handle_trans_run : ℕ → ℕ → State → Result State
check_and_handle_trans_run me pid s = check_inside_trans trans_run pid s >>= λ ntrans.
    if is_pos ntrans && not (s.kmem == s.log_run)
    then exit_trans_run me (record s {
      freelist = s.log_run ∷ s.freelist;
      run_list = View.register s.log_run s.run_list;
    })
    else if is_neg ntrans
    then panic
    else ok s
