-- ===== src/Trans/Invariant.antt =====
-- The counters of kernel/trans.c never go below zero, so the guards on entry never stop the kernel.
use ev.Prelude.{
  ℕ, ◌≡◌, ◌≢◌, refl, ◌⊎◌, inl, inr, List, [], ◌∷◌, Option, none, some, if◌then◌else◌, get_elem?,
  set, All, All-get_elem?, All-set, Result, ok, panic, fault, ◌>>=◌, >>=-eq-ok, Option-cases, arith,
}
use ev.Prelude.Int.{succ, pred, is_neg, is_pos, IsNat, succ-is_pos, pred-IsNat}
use ev.Trans.{
  TransInfo, State, register_trans_info, delete_trans_info, index, info_at, put, enter_trans_log,
  exit_trans_log, enter_trans_pagetable, exit_trans_pagetable, enter_trans_run, exit_trans_run,
}

abbrev pub IsCounted : TransInfo → Type 0
IsCounted t = IsNat t.pagetable_ntrans × IsNat t.log_ntrans × IsNat t.run_ntrans

abbrev pub Counted : State → Type 0
Counted s = All IsCounted s.infos

-- The operations of trans.c that change the counters, each by the process that makes the call.
pub data Op : Type 0 where
  registers deletes : Op
  enters_log exits_log enters_pagetable exits_pagetable exits_run : Op
  enters_run : ℕ → Op

unfoldable pub step : Op → ℕ → State → Result State
step registers me s = ok (record s { infos = register_trans_info me s.infos })
step deletes me s = ok (record s { infos = delete_trans_info me s.infos })
step enters_log me s = enter_trans_log me s
step exits_log me s = exit_trans_log me s
step enters_pagetable me s = enter_trans_pagetable me s
step exits_pagetable me s = exit_trans_pagetable me s
step exits_run me s = exit_trans_run me s
step (enters_run r) me s = enter_trans_run me r s

register-Counted :
    (pid : ℕ) (ts : List TransInfo) → All IsCounted ts → All IsCounted (register_trans_info pid ts)
unfolding register_trans_info
register-Counted pid [] a = tt
register-Counted pid (t ∷ ts) a = ground (arith, register-Counted pid ts a.1)

delete-Counted :
    (pid : ℕ) (ts : List TransInfo) → All IsCounted ts → All IsCounted (delete_trans_info pid ts)
unfolding delete_trans_info
delete-Counted pid [] a = tt
delete-Counted pid (t ∷ ts) a = ground (arith, delete-Counted pid ts a.1)

-- What `info_at` gives is the entry at its index.
pub info_at-eq_ok :
    (j : Option ℕ) (s : State) {i : ℕ} {t : TransInfo}
    → info_at j s ≡ ok (i, t)
    → (j ≡ some i) × (get_elem? s.infos i ≡ some t)
unfolding info_at
info_at-eq_ok none s h = absurd (cc)
info_at-eq_ok (some k) s h = ground arith

module _ (s : State) (c : Counted s) where
  info-IsCounted : (i : ℕ) (t : TransInfo) → get_elem? s.infos i ≡ some t → IsCounted t
  info-IsCounted i t e = All-get_elem? IsCounted s.infos i t c e

  -- An entry written back with its counters counted keeps the invariant.
  put-Counted : (i : ℕ) (t : TransInfo) → IsCounted t → All IsCounted (set s.infos i t)
  put-Counted i t p = All-set IsCounted s.infos i t c p

  enter_trans_log-Counted : (me : ℕ) (s' : State) → enter_trans_log me s ≡ ok s' → Counted s'
  unfolding enter_trans_log
  enter_trans_log-Counted me s' h =
      let ((i, t), e, k) = >>=-eq-ok (info_at (index me s) s) _ h in
      let p = info-IsCounted i t (info_at-eq_ok (index me s) s e).1 in
      ground (
        arith,
        succ-is_pos t.log_ntrans p.1,
        put-Counted i (record t { log_ntrans = succ t.log_ntrans }),
      )

  exit_trans_log-Counted : (me : ℕ) (s' : State) → exit_trans_log me s ≡ ok s' → Counted s'
  unfolding exit_trans_log
  exit_trans_log-Counted me s' h =
      let ((i, t), e, k) = >>=-eq-ok (info_at (index me s) s) _ h in
      let p = info-IsCounted i t (info_at-eq_ok (index me s) s e).1 in
      ground (
        arith,
        pred-IsNat t.log_ntrans,
        put-Counted i (record t { log_ntrans = pred t.log_ntrans }),
      )

  enter_trans_run-Counted : (me r : ℕ) (s' : State) → enter_trans_run me r s ≡ ok s' → Counted s'
  unfolding enter_trans_run
  enter_trans_run-Counted me r s' h =
      let ((i, t), e, k) = >>=-eq-ok (info_at (index me s) s) _ h in
      let p = info-IsCounted i t (info_at-eq_ok (index me s) s e).1 in
      ground (
        arith,
        succ-is_pos t.run_ntrans p.2,
        put-Counted i (record t { run_ntrans = succ t.run_ntrans }),
      )

  exit_trans_run-Counted : (me : ℕ) (s' : State) → exit_trans_run me s ≡ ok s' → Counted s'
  unfolding exit_trans_run
  exit_trans_run-Counted me s' h =
      let ((i, t), e, k) = >>=-eq-ok (info_at (index me s) s) _ h in
      let p = info-IsCounted i t (info_at-eq_ok (index me s) s e).1 in
      ground (
        arith,
        pred-IsNat t.run_ntrans,
        put-Counted i (record t { run_ntrans = pred t.run_ntrans }),
      )

  enter_pagetable_at :
      (j : Option ℕ) (s' : State)
      → (info_at j s >>= λ (i, t).
          if is_neg t.pagetable_ntrans
          then panic
          else ok (put s i (record t { pagetable_ntrans = succ t.pagetable_ntrans })))
        ≡ ok s'
      → Counted s'
  unfolding put
  enter_pagetable_at j s' h =
      let ((i, t), e, k) = >>=-eq-ok (info_at j s) _ h in
      let p = info-IsCounted i t (info_at-eq_ok j s e).1 in
      ground (
        arith,
        succ-is_pos t.pagetable_ntrans p.0,
        put-Counted i (record t { pagetable_ntrans = succ t.pagetable_ntrans }),
      )

  exit_pagetable_at :
      (j : Option ℕ) (s' : State)
      → (info_at j s >>= λ (i, t).
          if is_pos t.pagetable_ntrans
          then ok (put s i (record t { pagetable_ntrans = pred t.pagetable_ntrans }))
          else panic)
        ≡ ok s'
      → Counted s'
  unfolding put
  exit_pagetable_at j s' h =
      let ((i, t), e, k) = >>=-eq-ok (info_at j s) _ h in
      let p = info-IsCounted i t (info_at-eq_ok j s e).1 in
      ground (
        arith,
        pred-IsNat t.pagetable_ntrans,
        put-Counted i (record t { pagetable_ntrans = pred t.pagetable_ntrans }),
      )

  enter_trans_pagetable-Counted :
      (me : ℕ) (s' : State) → enter_trans_pagetable me s ≡ ok s' → Counted s'
  unfolding enter_trans_pagetable put
  enter_trans_pagetable-Counted me s' h = elim (Option-cases (index me s)) [
    | inl e ↦ ground arith
    | inr (j, e) ↦ enter_pagetable_at (some j) s' (ground arith)
  ]

  exit_trans_pagetable-Counted :
      (me : ℕ) (s' : State) → exit_trans_pagetable me s ≡ ok s' → Counted s'
  unfolding exit_trans_pagetable put
  exit_trans_pagetable-Counted me s' h = elim (Option-cases (index me s)) [
    | inl e ↦ ground arith
    | inr (j, e) ↦ exit_pagetable_at (some j) s' (ground arith)
  ]

-- Every operation that returns keeps all counters of all entries at zero or above.
pub step-Counted : (op : Op) (me : ℕ) (s s' : State) → Counted s → step op me s ≡ ok s' → Counted s'
unfolding step
step-Counted registers me s s' c h = ground (arith, register-Counted me s.infos c)
step-Counted deletes me s s' c h = ground (arith, delete-Counted me s.infos c)
step-Counted enters_log me s s' c h = enter_trans_log-Counted s c me s' h
step-Counted exits_log me s s' c h = exit_trans_log-Counted s c me s' h
step-Counted enters_pagetable me s s' c h = enter_trans_pagetable-Counted s c me s' h
step-Counted exits_pagetable me s s' c h = exit_trans_pagetable-Counted s c me s' h
step-Counted exits_run me s s' c h = exit_trans_run-Counted s c me s' h
step-Counted (enters_run r) me s s' c h = enter_trans_run-Counted s c me r s' h

pub info_at-cases :
    (j : Option ℕ) (s : State)
    → (info_at j s ≡ fault)
      ⊎ ((i : ℕ) × (t : TransInfo) × (info_at j s ≡ ok (i, t)) × (get_elem? s.infos i ≡ some t))
unfolding info_at
info_at-cases none s = inl refl
info_at-cases (some i) s = elim (Option-cases (get_elem? s.infos i)) [
  | inl e ↦ inl (ground arith)
  | inr (t, e) ↦ inr (i, t, ground arith, e)
]

-- A bind of `info_at` with a body that keeps out of `panic` at counted entries keeps out of it too.
info_at-ne-panic :
    (j : Option ℕ) (s : State) (f : ℕ × TransInfo → Result State)
    → Counted s
    → ((i : ℕ) (t : TransInfo) → IsCounted t → f (i, t) ≢ panic)
    → (info_at j s >>= f) ≢ panic
info_at-ne-panic j s f c keeps = elim (info_at-cases j s) [
  | inl e ↦ λ h. let k : fault ≡ panic = rw e at h in ground arith
  | inr (i, t, e, g) ↦
      λ h. let k : f (i, t) ≡ panic = rw e at h in keeps i t (info-IsCounted s c i t g) k
]

-- While the counters are at zero or above, no `enter_trans_*` ends in `panic`.
pub enter-ne-panic :
    (me r : ℕ) (s : State)
    → Counted s
    → (enter_trans_log me s ≢ panic)
      × (enter_trans_pagetable me s ≢ panic)
      × (enter_trans_run me r s ≢ panic)
unfolding enter_trans_log enter_trans_pagetable enter_trans_run
enter-ne-panic me r s c = (
  info_at-ne-panic (index me s) s _ c (λ i t p. ground arith),
  elim (Option-cases (index me s)) [
    | inl e ↦ ground arith
    | inr (j, e) ↦
        rw (e, enter_trans_pagetable) (info_at-ne-panic (some j) s _ c (λ i t p. ground arith))
  ],
  info_at-ne-panic (index me s) s _ c (λ i t p. ground arith),
)
