-- ===== src/Trans/Nesting.antt =====
-- A transaction that is entered and left puts the counters back.
use ev.Prelude.{
  ℕ, suc, ◌≡◌, refl, ◌∙◌, inl, inr, List, [], ◌∷◌, Option, none, some, if◌then◌else◌, get_elem?,
  set, set-set, set-get_elem?, get_elem?-set_self, get_elem?-lt-length, ok, panic, >>=-eq-ok,
  Option-cases, arith, zero,
}
use ev.Prelude.Int.{negsuc, succ, is_neg, IsNat, succ-is_pos, pred-succ}
use ev.Trans.{
  TransInfo, State, search_from, search_trans_info, index, info_at, put, enter_trans_log,
  exit_trans_log, enter_trans_pagetable, exit_trans_pagetable,
}
use ev.Trans.Invariant.{info_at-eq_ok}

-- The search reads the pids only.
search_from-set :
    (pid : ℕ) (ts : List TransInfo) (i k : ℕ) (r : Option ℕ) (t t' : TransInfo)
    → get_elem? ts i ≡ some t
    → t'.pid ≡ t.pid
    → search_from pid (set ts i t') k r ≡ search_from pid ts k r
unfolding search_from
search_from-set pid [] i k r t t' e p = refl
search_from-set pid (x ∷ ts) zero k r t t' e p = ground arith
search_from-set pid (x ∷ ts) (suc i) k r t t' e p = search_from-set pid ts i (suc k) _ t t' e p

-- So an entry with new counters is found where the old one was.
pub search-set :
    (pid : ℕ) (ts : List TransInfo) (i : ℕ) (t t' : TransInfo)
    → get_elem? ts i ≡ some t
    → t'.pid ≡ t.pid
    → search_trans_info pid (set ts i t') ≡ search_trans_info pid ts
unfolding search_trans_info
search-set pid ts i t t' e p = search_from-set pid ts i 0 none t t' e p

pub index-set :
    (me : ℕ) (s : State) (i : ℕ) (t t' : TransInfo) (u : State)
    → get_elem? s.infos i ≡ some t
    → t'.pid ≡ t.pid
    → u.nextpid ≡ s.nextpid
    → u.infos ≡ set s.infos i t'
    → index me u ≡ index me s
unfolding index
index-set me s i t t' u e p n w = ground (arith, search-set me s.infos i t t' e p)

-- The entry that a later call finds in a state whose list had `t'` written at the caller's index.
pub info_at-set :
    (me : ℕ) (s : State) (i : ℕ) (t t' : TransInfo) (u : State)
    → info_at (index me s) s ≡ ok (i, t)
    → t'.pid ≡ t.pid
    → u.nextpid ≡ s.nextpid
    → u.infos ≡ set s.infos i t'
    → info_at (index me u) u ≡ ok (i, t')
unfolding info_at
info_at-set me s i t t' u e p n w =
    let (j, g) = info_at-eq_ok (index me s) s e in
    let k : index me u ≡ some i = index-set me s i t t' u g p n w ∙ j in
    let read : get_elem? u.infos i ≡ some t' =
      rw w (get_elem?-set_self s.infos i t' (get_elem?-lt-length s.infos i t g)) in
    rw k (ground arith)

-- Writing the old counters back after an increment.
pub set-back :
    (ts : List TransInfo) (i : ℕ) (t t' t'' : TransInfo)
    → get_elem? ts i ≡ some t
    → t'' ≡ t
    → set (set ts i t') i t'' ≡ ts
set-back ts i t t' t'' e p = rw (set-set ts i t' t'', p) (set-get_elem? ts i t e)

-- A log transaction that is entered and left with nothing else done leaves everything as it was but
-- the saved header, which is the log's, and the saved `outstanding`, which is -1.
pub exit_trans_log-enter_trans_log :
    (me : ℕ) (s s' : State)
    → ((i : ℕ) (t : TransInfo) → get_elem? s.infos i ≡ some t → IsNat t.log_ntrans)
    → enter_trans_log me s ≡ ok s'
    → exit_trans_log me s' ≡ ok (record s { log_logheader = s.lh; log_outstanding = negsuc 0 })
unfolding enter_trans_log exit_trans_log
exit_trans_log-enter_trans_log me s s' counted h =
    let ((i, t), e, k) = >>=-eq-ok (info_at (index me s) s) _ h in
    let g = (info_at-eq_ok (index me s) s e).1 in
    ground (
      arith,
      succ-is_pos t.log_ntrans (counted i t g),
      pred-succ t.log_ntrans,
      info_at-set me s i t (record t { log_ntrans = succ t.log_ntrans }) s' e,
      set-back s.infos i t (record t { log_ntrans = succ t.log_ntrans }) t g,
    )

-- A page-table transaction that is entered and left leaves everything as it was.
pub exit_trans_pagetable-enter_trans_pagetable :
    (me : ℕ) (s s' : State)
    → ((i : ℕ) (t : TransInfo) → get_elem? s.infos i ≡ some t → IsNat t.pagetable_ntrans)
    → enter_trans_pagetable me s ≡ ok s'
    → exit_trans_pagetable me s' ≡ ok s
unfolding enter_trans_pagetable exit_trans_pagetable put
exit_trans_pagetable-enter_trans_pagetable me s s' counted h = elim (Option-cases (index me s)) [
  | inl e ↦ ground arith
  | inr (j, f) ↦
      let ((i, t), e, k) =
        >>=-eq-ok (info_at (some j) s)
          (λ (i, t).
            if is_neg t.pagetable_ntrans
            then panic
            else ok (record s {
              infos = set s.infos i (record t { pagetable_ntrans = succ t.pagetable_ntrans });
            }))
          {t = s'} (ground arith) in
      let e' : info_at (index me s) s ≡ ok (i, t) = rw f e in
      let g = (info_at-eq_ok (index me s) s e').1 in
      ground (
        arith,
        succ-is_pos t.pagetable_ntrans (counted i t g),
        pred-succ t.pagetable_ntrans,
        (info_at-eq_ok (some j) s e).0,
        index-set me s i t (record t { pagetable_ntrans = succ t.pagetable_ntrans }) s' g,
        info_at-set me s i t (record t { pagetable_ntrans = succ t.pagetable_ntrans }) s' e',
        set-back s.infos i t (record t { pagetable_ntrans = succ t.pagetable_ntrans }) t g,
      )
]
