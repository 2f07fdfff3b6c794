-- ===== src/Log/Absorb.antt =====
-- kernel/log.c: what `log_write` makes of the list of entries, and the space that `begin_op` reserves.
use ev.Prelude.{
  ℕ, zero, suc, ◌+◌, ◌*◌, ◌<◌, ◌≤◌, ◌≡◌, refl, ap, true, false, ◌||◌, List, [], ◌∷◌, ◌++◌, some,
  ◌==◌, if◌then◌else◌, leb, get_elem?, set, set-get_elem?, length-set, length, ◌∙◌, sym, arith, ok,
  ◌>>=◌, >>=-eq-ok, Bool-cases, inl, inr,
}
use ev.Prelude.Int.{ℤ, pos, negsuc, succ, is_pos}
use ev.Params.{LogHeader, logsize, maxopblocks}
use ev.RecoveryLock.Index.{rl_flag_log}
use ev.RecoveryLock.Locks.{Caller, enter_recovery_critical_section, exit_recovery_critical_section}
use ev.Trans
use ev.Trans.{index, info_at, enter_trans_log, exit_trans_log}
use ev.Log.{
  State, live, take, slot, put_block, log_write_locked, log_write, begin_op, no_space,
  with_outstanding,
}
use ev.Log.Disk.{mem}
use ev.Log.Header.{length-take}

slot-mem :
    (b n : ℕ) (xs : List ℕ)
    → mem b (take n xs) ≡ true
    → (slot b (take n xs) < n) × (get_elem? xs (slot b (take n xs)) ≡ some b)
unfolding slot mem take
slot-mem b zero xs m = absurd (ground arith)
slot-mem b (suc n) [] m = absurd (ground arith)
slot-mem b (suc n) (x ∷ xs) m = ground (arith, slot-mem b n xs)

slot-miss : (b : ℕ) (bs : List ℕ) → mem b bs ≡ false → slot b bs ≡ length bs
unfolding slot mem
slot-miss b [] m = refl
slot-miss b (x ∷ bs) m = ground (arith, slot-miss b bs)

take-set : (n b : ℕ) (xs : List ℕ) → n < length xs → take (suc n) (set xs n b) ≡ take n xs ++ b ∷ []
unfolding take
take-set n b [] lt = absurd (omega arith)
take-set zero b (x ∷ xs) lt = refl
take-set (suc n) b (x ∷ xs) lt = ap (λ r. x ∷ r) (take-set n b xs (omega arith))

-- The entries after an entry for `b`.
abbrev pub absorb : ℕ → List ℕ → List ℕ
absorb b bs = if mem b bs then bs else bs ++ b ∷ []

live-new :
    (b : ℕ) (lh : LogHeader)
    → lh.n < length lh.block
    → live (record { n = suc lh.n; block = set lh.block lh.n b })
      ≡ ok (take lh.n lh.block ++ b ∷ [])
unfolding live
live-new b lh lt = ground (arith, take-set lh.n b lh.block lt, length-set lh.block lh.n b)

live-eq-ok :
    (lh : LogHeader) (bs : List ℕ)
    → live lh ≡ ok bs
    → (lh.n ≤ length lh.block) × (take lh.n lh.block ≡ bs)
unfolding live
live-eq-ok lh bs h = ground arith

put_block_new :
    (b n : ℕ) (lh out : LogHeader)
    → n ≡ lh.n
    → put_block n b (n == lh.n) lh ≡ ok out
    → (lh.n < length lh.block) × (out ≡ record { n = suc lh.n; block = set lh.block lh.n b })
unfolding put_block
put_block_new b n lh out e h = ground arith

live-put_block :
    (b : ℕ) (lh out : LogHeader) (bs : List ℕ)
    → live lh ≡ ok bs
    → put_block (slot b bs) b (slot b bs == lh.n) lh ≡ ok out
    → live out ≡ ok (absorb b bs)
unfolding live put_block
live-put_block b lh out bs h e = elim (Bool-cases (mem b bs)) [
  | inl m ↦ ground (arith, slot-mem b lh.n lh.block, set-get_elem? lh.block (slot b bs) b)
  | inr m ↦
      let (fits, e') = live-eq-ok lh bs h in
      let at : slot b bs ≡ lh.n =
        slot-miss b bs m ∙ ground (arith, length-take lh.n lh.block fits) in
      let (lt, new) = put_block_new b (slot b bs) lh out at e in
      rw (new, live-new b lh lt) ground arith
]

enter_trans_log-same :
    (me : ℕ) (s t : Trans.State)
    → enter_trans_log me s ≡ ok t
    → (t.lh ≡ s.lh) × (t.dup_lhdr ≡ s.dup_lhdr)
unfolding enter_trans_log
enter_trans_log-same me s t h =
    let ((i, x), e, k) = >>=-eq-ok (info_at (index me s) s) _ h in ground arith

exit_trans_log-same :
    (me : ℕ) (s t : Trans.State)
    → exit_trans_log me s ≡ ok t
    → (t.lh ≡ s.lh) × (t.dup_lhdr ≡ s.dup_lhdr)
unfolding exit_trans_log
exit_trans_log-same me s t h =
    let ((i, x), e, k) = >>=-eq-ok (info_at (index me s) s) _ h in ground arith

absorb_step :
    (me b : ℕ) (s t u : Trans.State) (bs : List ℕ) (lh dup : LogHeader)
    → live s.lh ≡ ok bs
    → s.dup_lhdr ≡ s.lh
    → enter_trans_log me s ≡ ok t
    → put_block (slot b bs) b (slot b bs == s.lh.n) t.lh ≡ ok lh
    → put_block (slot b bs) b (slot b bs == s.lh.n) t.dup_lhdr ≡ ok dup
    → exit_trans_log me (record t { lh = lh; dup_lhdr = dup }) ≡ ok u
    → (live u.lh ≡ ok (absorb b bs)) × (u.dup_lhdr ≡ u.lh)
absorb_step me b s t u bs lh dup h same entered put put_dup left =
    let (a, a') = enter_trans_log-same me s t entered in
    let (c, c') = exit_trans_log-same me (record t { lh = lh; dup_lhdr = dup }) u left in
    let now : live lh ≡ ok (absorb b bs) = live-put_block b s.lh lh bs h (rw a at put) in
    let both : dup ≡ lh = ground arith in (rw c now, c' ∙ both ∙ sym c)

log_write_locked-absorb :
    (me b : ℕ) (s t : State) (bs : List ℕ)
    → live s.trans.lh ≡ ok bs
    → s.trans.dup_lhdr ≡ s.trans.lh
    → log_write_locked me b s ≡ ok t
    → (live t.trans.lh ≡ ok (absorb b bs)) × (t.trans.dup_lhdr ≡ t.trans.lh)
unfolding log_write_locked
log_write_locked-absorb me b s t bs h same run =
    let (cs, h', run1) = >>=-eq-ok (live s.trans.lh) _ run in
    let eq : bs ≡ cs = ground arith in
    let (t1, entered, run2) = >>=-eq-ok (enter_trans_log me s.trans) _ run1 in
    let (lh, put, run3) =
      >>=-eq-ok (put_block (slot b cs) b (slot b cs == s.trans.lh.n) t1.lh) _ run2 in
    let (dup, put_dup, run4) =
      >>=-eq-ok (put_block (slot b cs) b (slot b cs == s.trans.lh.n) t1.dup_lhdr) _ run3 in
    let (u, left, last) =
      >>=-eq-ok (exit_trans_log me (record t1 { lh = lh; dup_lhdr = dup })) _ run4 in
    let r = absorb_step me b s.trans t1 u cs lh dup h' same entered put put_dup left in
    ground (arith, r)

-- A write through the log leaves the entries as they are when it has the block already, and adds the
-- block behind them when not; the duplicate of the header stays equal to the header.
pub log_write-absorb :
    (c : Caller) (me b : ℕ) (s t : State) (bs : List ℕ)
    → live s.trans.lh ≡ ok bs
    → s.trans.dup_lhdr ≡ s.trans.lh
    → log_write c me b s ≡ ok t
    → (live t.trans.lh ≡ ok (absorb b bs)) × (t.trans.dup_lhdr ≡ t.trans.lh)
unfolding log_write
log_write-absorb c me b s t bs h same run =
    let (l, f, run1) = >>=-eq-ok (enter_recovery_critical_section c rl_flag_log 0 s.locks) _ run in
    elim (Bool-cases (leb logsize s.trans.lh.n || leb s.size (s.trans.lh.n + 1))) [
      | inl full ↦ absurd (ground arith)
      | inr free ↦ elim (Bool-cases (is_pos s.trans.outstanding)) [
        | inr idle ↦ absurd (ground arith)
        | inl begun ↦
            let (u, locked, run2) =
              >>=-eq-ok (log_write_locked me b (record s { locks = l }))
                (λ t. exit_recovery_critical_section c rl_flag_log 0 t.locks >>= λ l'.
                  ok (record t { locks = l' }))
                {t = t} (ground arith) in
            let (l', left, last) =
              >>=-eq-ok (exit_recovery_critical_section c rl_flag_log 0 u.locks) _ run2 in
            let r = log_write_locked-absorb me b (record s { locks = l }) u bs h same locked in
            ground arith
      ]
    ]

reserved :
    (n : ℕ) (o : ℤ)
    → no_space n o ≡ false
    → (k : ℕ) → succ o ≡ pos k
    → n + k * maxopblocks ≤ logsize
unfolding no_space succ
reserved n (pos j) h k e = ground arith
reserved n (negsuc zero) h k e = ground arith
reserved n (negsuc (suc j)) h k e = ground arith

-- When `begin_op` has returned, the entries of the log and MAXOPBLOCKS more for each operation that has
-- begun, this one included, are at most LOGSIZE.
pub begin_op-space :
    (c : Caller) (s t : State)
    → begin_op c s ≡ ok t
    → (k : ℕ) → t.trans.outstanding ≡ pos k
    → t.trans.lh.n + k * maxopblocks ≤ logsize
unfolding begin_op no_space with_outstanding succ
begin_op-space c s t h k e =
    let (l, f, g) = >>=-eq-ok (enter_recovery_critical_section c rl_flag_log 0 s.locks) _ h in
    elim (Bool-cases (s.committing || no_space s.trans.lh.n s.trans.outstanding)) [
      | inl full ↦ absurd (ground arith)
      | inr free ↦
          let (l', f', g') =
            >>=-eq-ok (exit_recovery_critical_section c rl_flag_log 0 l)
              (λ l'. ok (record s { locks = l'; trans = with_outstanding succ s.trans })) {t = t}
              (ground arith) in
          let same : t.trans.lh.n ≡ s.trans.lh.n = ground arith in
          let o : succ s.trans.outstanding ≡ pos k = ground arith in
          rw same (reserved s.trans.lh.n s.trans.outstanding (ground arith) k o)
    ]
