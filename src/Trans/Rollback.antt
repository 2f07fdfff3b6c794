-- ===== src/Trans/Rollback.antt =====
-- What the transaction handlers of kernel/trans.c restore after a memory error.
use ev.Prelude.{
  ℕ, suc, ◌<◌, ◌≡◌, ◌≢◌, refl, List, [], ◌∷◌, some, get_elem?, ok, >>=-eq-ok, arith, zero,
}
use ev.Prelude.Int.{pos, succ, IsNat, succ-is_pos, pred-succ}
use ev.MList.View
use ev.Trans.{
  TransInfo, State, index, info_at, enter_trans_log, enter_trans_run, exit_trans_run,
  check_inside_trans, check_and_handle_trans_log, check_and_handle_trans_logheader,
  check_and_handle_trans_run, register_trans_info, delete_trans_info,
}
use ev.Trans.Invariant.{info_at-eq_ok}
use ev.Trans.Nesting.{info_at-set, set-back}

-- Inside a log transaction that the process entered from `s`, the interrupted code having changed
-- the log and the replicas in any way: the handler puts the logged header into the log and both
-- replicas, and reports success.
pub check_and_handle_trans_log-enter :
    (me : ℕ) (s s' u : State)
    → 2 < s.nextpid
    → ((i : ℕ) (t : TransInfo) → get_elem? s.infos i ≡ some t → IsNat t.log_ntrans)
    → enter_trans_log me s ≡ ok s'
    → u.infos ≡ s'.infos
    → u.nextpid ≡ s'.nextpid
    → u.log_logheader ≡ s'.log_logheader
    → u.log_outstanding ≡ s'.log_outstanding
    → check_and_handle_trans_log me u
      ≡ ok (record u { lh = s.lh; dup_lhdr = s.lh; dup_outstanding = s.outstanding }, pos 0)
unfolding enter_trans_log check_and_handle_trans_log check_inside_trans index
check_and_handle_trans_log-enter me s s' u young counted h same_infos same_pid same_header
      same_out =
    let ((i, t), e, k) = >>=-eq-ok (info_at (index me s) s) _ h in
    let g = (info_at-eq_ok (index me s) s e).1 in
    ground (
      arith,
      succ-is_pos t.log_ntrans (counted i t g),
      info_at-set me s i t (record t { log_ntrans = succ t.log_ntrans }) u e,
    )

-- The handler for struct log restores the two replicas; it keeps `dup_outstanding` where the logged
-- value is negative, so it never stores a negative one.
pub check_and_handle_trans_logheader-enter :
    (me : ℕ) (s s' u : State)
    → 2 < s.nextpid
    → ((i : ℕ) (t : TransInfo) → get_elem? s.infos i ≡ some t → IsNat t.log_ntrans)
    → IsNat s.outstanding
    → enter_trans_log me s ≡ ok s'
    → u.infos ≡ s'.infos
    → u.nextpid ≡ s'.nextpid
    → u.log_logheader ≡ s'.log_logheader
    → u.log_outstanding ≡ s'.log_outstanding
    → check_and_handle_trans_logheader me u
      ≡ ok (record u { dup_lhdr = s.lh; dup_outstanding = s.outstanding }, pos 0)
unfolding enter_trans_log check_and_handle_trans_logheader check_inside_trans index
check_and_handle_trans_logheader-enter me s s' u young counted nat h si sp sh so =
    let ((i, t), e, k) = >>=-eq-ok (info_at (index me s) s) _ h in
    let g = (info_at-eq_ok (index me s) s e).1 in
    ground (
      arith,
      succ-is_pos t.log_ntrans (counted i t g),
      info_at-set me s i t (record t { log_ntrans = succ t.log_ntrans }) u e,
    )

-- A page that `kfree` had entered in a run transaction when the memory error came is put on the
-- Free-List and registered, and the transaction is left: the counters are those before it.
pub check_and_handle_trans_run-enter :
    (me r : ℕ) (s s' : State)
    → 2 < s.nextpid
    → ((i : ℕ) (t : TransInfo) → get_elem? s.infos i ≡ some t → IsNat t.run_ntrans)
    → s.kmem ≢ r
    → enter_trans_run me r s ≡ ok s'
    → check_and_handle_trans_run me me s'
      ≡ ok (record s {
        freelist = r ∷ s.freelist;
        run_list = View.register r s.run_list;
        log_run = 0;
      })
unfolding enter_trans_run exit_trans_run check_and_handle_trans_run check_inside_trans index
check_and_handle_trans_run-enter me r s s' young counted other h =
    let ((i, t), e, k) = >>=-eq-ok (info_at (index me s) s) _ h in
    let g = (info_at-eq_ok (index me s) s e).1 in
    let listed : State = record s' {
      freelist = s'.log_run ∷ s'.freelist;
      run_list = View.register s'.log_run s'.run_list;
    } in
    ground (
      arith,
      succ-is_pos t.run_ntrans (counted i t g),
      pred-succ t.run_ntrans,
      info_at-set me s i t (record t { run_ntrans = succ t.run_ntrans }) s' e,
      info_at-set me s i t (record t { run_ntrans = succ t.run_ntrans }) listed e,
      set-back s.infos i t (record t { run_ntrans = succ t.run_ntrans }) t g,
    )

-- `delete_trans_info` does not clear the counters: where the first entry that is free or of process
-- `p` is `p`'s own, a process `q` registered after `p` is deleted gets the entry with `p`'s counters.
pub register-delete_stale :
    (p q : ℕ) (ts : List TransInfo) (i : ℕ) (t : TransInfo)
    → get_elem? ts i ≡ some t
    → t.pid ≡ p
    → ((j : ℕ) (u : TransInfo) → j < i → get_elem? ts j ≡ some u → (u.pid ≢ 0) × (u.pid ≢ p))
    → get_elem? (register_trans_info q (delete_trans_info p ts)) i ≡ some (record t { pid = q })
unfolding register_trans_info delete_trans_info
register-delete_stale p q [] i t e own before = absurd (ground arith)
register-delete_stale p q (x ∷ ts) zero t e own before = ground arith
register-delete_stale p q (x ∷ ts) (suc i) t e own before = ground (
  arith,
  before 0 x (omega arith) refl,
  register-delete_stale p q ts i t e own (λ j u lt f. before (suc j) u (omega arith) f),
)
