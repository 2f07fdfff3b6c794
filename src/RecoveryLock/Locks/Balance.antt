-- ===== src/RecoveryLock/Locks/Balance.antt =====
-- The count of each recovery lock is the number of times its flag stands in the processes' histories,
-- which is what a recovery handler asks for before it replaces a broken object.
use ev.Prelude.{
  ℕ, zero, suc, ◌+◌, ◌≡◌, ◌≢◌, inl, inr, refl, ◌∙◌, replicate, true, List, [], ◌∷◌, Option, none,
  some, ◌==◌, if◌then◌else◌, get_elem?, set, get_elem?-set_self, get_elem?-set_ne,
  get_elem?-lt-length, ok, >>=-eq-ok, arith, Option-cases, Bool-cases,
}
use ev.Prelude.Int.{ℤ, pos, succ, pred}
use ev.RecoveryLock.History.{
  history, put_history, add_flag, del_flag, has_flag, rcs_info_history_size,
}
use ev.RecoveryLock.History.Counts.{count, total, count-add_flag, count-del_flag, total-put_history}
use ev.RecoveryLock.Locks.{
  RecoveryLock, State, Caller, section_lock, enter_recovery_critical_section,
  exit_recovery_critical_section, exit_recovery_critical_section_all, count_down,
}

-- The count of a flag's lock; a flag without a lock counts nobody.
abbrev pub num_of : Option RecoveryLock → ℤ
num_of none = pos 0
num_of (some l) = l.num

abbrev pub num_at : ℕ → State → ℤ
num_at f s = num_of (get_elem? s.recovery_locks f)

abbrev pub Matched : State → Type 0
Matched s = (f : ℕ) → f ≢ 0 → num_at f s ≡ pos (total f s.rcs_infos)

num_at-set :
    (ls : List RecoveryLock) (flag f : ℕ) (l l' : RecoveryLock)
    → get_elem? ls flag ≡ some l
    → num_of (get_elem? (set ls flag l') f)
      ≡ (if flag == f then l'.num else num_of (get_elem? ls f))
num_at-set ls flag f l l' e = elim (Bool-cases (flag == f)) [
  | inl same ↦ ground (arith, get_elem?-set_self ls f l', get_elem?-lt-length ls f l)
  | inr other ↦ ground (arith, get_elem?-set_ne ls {i = flag} {j = f} l')
]

-- What an entry of a process that is counted does.
abbrev Entered : ℕ → ℕ → State → State → Type 0
Entered p flag s s' =
    (l : RecoveryLock) × (x : ℕ) × (h : List ℕ) × (get_elem? s.recovery_locks flag ≡ some l)
    × (history p s.rcs_infos ≡ some h)
    × (s'.recovery_locks ≡ set s.recovery_locks flag (record l { num = succ l.num; exception = x }))
    × (s'.rcs_infos ≡ put_history p (add_flag flag h) s.rcs_infos)

enter-Entered :
    (c : Caller) (p flag exception : ℕ) (l : RecoveryLock) (s s' : State)
    → c.pid ≡ some p
    → get_elem? s.recovery_locks flag ≡ some l
    → l.holder ≡ none
    → enter_recovery_critical_section c flag exception s ≡ ok s'
    → Entered p flag s s'
unfolding enter_recovery_critical_section
enter-Entered c p flag exception l s s' e g free h = elim (Option-cases (history p s.rcs_infos)) [
  | inl n ↦ absurd (ground arith)
  | inr (hist, n) ↦
      (l, if exception == 0 then l.exception else exception, hist, g, n, ground arith, ground arith)
]

Entered-Matched :
    (p flag : ℕ) (s s' : State) (hist : List ℕ)
    → flag ≢ 0
    → history p s.rcs_infos ≡ some hist
    → has_flag 0 hist ≡ true
    → Matched s
    → Entered p flag s s'
    → Matched s'
unfolding succ
Entered-Matched p flag s s' hist nz e room m (l, x, h, g, k, locks, infos) f nf = ground (
  arith,
  m f nf,
  num_at-set s.recovery_locks flag f l (record l { num = succ l.num; exception = x }) g,
  total-put_history f p h (add_flag flag h) s.rcs_infos k,
  count-add_flag f flag h nf nz,
)

abbrev Left : ℕ → ℕ → State → State → Type 0
Left p flag s s' =
    (l : RecoveryLock) × (x : ℕ) × (h : List ℕ) × (get_elem? s.recovery_locks flag ≡ some l)
    × (history p s.rcs_infos ≡ some h)
    × (s'.recovery_locks ≡ set s.recovery_locks flag (record l { num = pred l.num; exception = x }))
    × (s'.rcs_infos ≡ put_history p (del_flag flag h) s.rcs_infos)

exit-Left :
    (c : Caller) (p flag exception : ℕ) (s s' : State)
    → c.pid ≡ some p
    → exit_recovery_critical_section c flag exception s ≡ ok s'
    → Left p flag s s'
unfolding exit_recovery_critical_section
exit-Left c p flag exception s s' e h =
    let (l, g, k) = >>=-eq-ok (section_lock c flag s) _ h in
    elim (Option-cases (history p s.rcs_infos)) [
      | inl n ↦ absurd (ground arith)
      | inr (hist, n) ↦ (
        l,
        if l.exception == exception then 0 else l.exception,
        hist,
        ground arith,
        n,
        ground arith,
        ground arith,
      )
    ]

Left-Matched :
    (p flag : ℕ) (s s' : State) (hist : List ℕ)
    → flag ≢ 0
    → history p s.rcs_infos ≡ some hist
    → has_flag flag hist ≡ true
    → Matched s
    → Left p flag s s'
    → Matched s'
unfolding pred
Left-Matched p flag s s' hist nz e inside m (l, x, h, g, k, locks, infos) f nf = ground (
  arith,
  m f nf,
  num_at-set s.recovery_locks flag f l (record l { num = pred l.num; exception = x }) g,
  total-put_history f p h (del_flag flag h) s.rcs_infos k,
  count-del_flag f flag h nf,
)

-- A process enters a section while its recovery lock is free, with room in its history, or leaves a
-- section that stands in its history.
pub data Step (s : State) (s' : State) : Type 0 where
  enters :
      (c : Caller) (p flag exception : ℕ) (l : RecoveryLock) (h : List ℕ)
      → c.pid ≡ some p
      → flag ≢ 0
      → get_elem? s.recovery_locks flag ≡ some l
      → l.holder ≡ none
      → history p s.rcs_infos ≡ some h
      → has_flag 0 h ≡ true
      → enter_recovery_critical_section c flag exception s ≡ ok s'
      → Step s s'
  leaves :
      (c : Caller) (p flag exception : ℕ) (h : List ℕ)
      → c.pid ≡ some p
      → flag ≢ 0
      → history p s.rcs_infos ≡ some h
      → has_flag flag h ≡ true
      → exit_recovery_critical_section c flag exception s ≡ ok s'
      → Step s s'

pub data Reach (s : State) : State → Type 0 where
  here : Reach s s
  next : {t u : State} → Reach s t → Step t u → Reach s u

Step-Matched : (s s' : State) → Step s s' → Matched s → Matched s'
Step-Matched s s' (enters c p flag exception l h e nz g free k room run) m =
    Entered-Matched p flag s s' h nz k room m (enter-Entered c p flag exception l s s' e g free run)
Step-Matched s s' (leaves c p flag exception h e nz k inside run) m =
    Left-Matched p flag s s' h nz k inside m (exit-Left c p flag exception s s' e run)

-- Where the count of every flag but 0 is the number of times the flag stands in all histories, it is
-- so after any entries of free sections with room in the history and any exits of sections that
-- stand in the history.
pub Reach-Matched : (s s' : State) → Matched s → Reach s s' → Matched s'
Reach-Matched s s' m here = m
Reach-Matched s s' m (next {t} r st) = Step-Matched t s' st (Reach-Matched s t m r)

unfoldable pub minus : ℕ → ℤ → ℤ
minus zero i = i
minus (suc n) i = minus n (pred i)

count_down-num :
    (h : List ℕ) (ls ls' : List RecoveryLock) (f : ℕ)
    → count_down h ls ≡ ok ls'
    → num_of (get_elem? ls' f) ≡ minus (count f h) (num_of (get_elem? ls f))
unfolding count_down count minus
count_down-num [] ls ls' f e = ground arith
count_down-num (g ∷ h) ls ls' f e = elim (Option-cases (get_elem? ls g)) [
  | inl n ↦ absurd (ground arith)
  | inr (l, n) ↦ ground (
    arith,
    count_down-num h (set ls g (record l { num = pred l.num })) ls' f,
    num_at-set ls g f l (record l { num = pred l.num }) n,
  )
]

minus-pos : (n m : ℕ) (i : ℤ) → i ≡ pos (n + m) → minus n i ≡ pos m
unfolding minus pred
minus-pos zero m i e = ground arith
minus-pos (suc n) m i e =
    minus-pos n m (pred i) (let k : i ≡ pos (suc (n + m)) = ground arith in ground arith)

count-empty : (f k : ℕ) → f ≢ 0 → count f (replicate k 0) ≡ 0
unfolding count
count-empty f zero nf = refl
count-empty f (suc k) nf = ground (arith, count-empty f k nf)

-- Leaving all sections counts the lock of each flag, the flag 0 of the empty places included, down
-- by the number of times that the flag stands in the history.
pub exit_all-num :
    (pid f : ℕ) (h : List ℕ) (s s' : State)
    → history pid s.rcs_infos ≡ some h
    → exit_recovery_critical_section_all pid s ≡ ok s'
    → num_at f s' ≡ minus (count f h) (num_at f s)
unfolding exit_recovery_critical_section_all
exit_all-num pid f h s s' e run =
    let (ls, g, k) =
      >>=-eq-ok (count_down h s.recovery_locks)
        (λ ls. ok (record s {
          recovery_locks = ls;
          rcs_infos = put_history pid (replicate rcs_info_history_size 0) s.rcs_infos;
        }))
        {t = s'} (ground arith) in
    ground (arith, count_down-num h s.recovery_locks ls f g)

-- A process that leaves all its sections after recovery keeps the counts equal to the histories.
pub exit_all-Matched :
    (pid : ℕ) (h : List ℕ) (s s' : State)
    → history pid s.rcs_infos ≡ some h
    → exit_recovery_critical_section_all pid s ≡ ok s'
    → Matched s
    → Matched s'
unfolding exit_recovery_critical_section_all
exit_all-Matched pid h s s' e run m f nf =
    let (ls, g, k) =
      >>=-eq-ok (count_down h s.recovery_locks)
        (λ ls. ok (record s {
          recovery_locks = ls;
          rcs_infos = put_history pid (replicate rcs_info_history_size 0) s.rcs_infos;
        }))
        {t = s'} (ground arith) in
    let put = total-put_history f pid h (replicate rcs_info_history_size 0) s.rcs_infos e in
    let none_left = count-empty f rcs_info_history_size nf in
    let whole : num_at f s ≡ pos (count f h + total f s'.rcs_infos) = ground (arith, m f nf) in
    exit_all-num pid f h s s' e run
    ∙ minus-pos (count f h) (total f s'.rcs_infos) (num_at f s) whole
