-- ===== src/Files/Count.antt =====
-- kernel/file.c: a file's count against the number of its descriptors.
use ev.Prelude.{
  ℕ, ◌+◌, ◌-◌, ◌≡◌, inl, inr, List, [], Option, none, some, ◌==◌, ltb, get_elem?, set, get_or, ok,
  ◌>>=◌, >>=-eq-ok, upd, arith, Bool-cases, Option-cases,
}
use ev.Prelude.Int.{ℤ, pos, negsuc}
use ev.RecoveryLock.Index.{Kind, rl_flag_ftable}
use ev.RecoveryLock.Locks.{
  Caller, enter_recovery_critical_section, enter_recovery_critical_section_nodes,
  exit_recovery_critical_section, exit_recovery_critical_section_nodes,
}
use ev.Files.{
  State, Last, Ofile, FileType, filedup, close_last, fileclose, free_fd, ofile, put_fd, fdalloc,
  enter_file, argfd, leave_ftable, leave_file, dup_file, sys_dup, sys_close,
}
use ev.Files.Sum.{total, total-set, free_fd-none}

abbrev pub Counted : (ℕ → ℕ) → List Ofile → Type 0
Counted ref ofiles = (f : ℕ) → ref f ≡ total f ofiles

abbrev pub IsCounted : State → Type 0
IsCounted s = Counted s.ref s.ofiles

-- Only the recovery sections changed.
abbrev Same : State → State → Type 0
Same s t = (t.ref ≡ s.ref) × (t.ofiles ≡ s.ofiles)

Same-IsCounted : (s t : State) → Same s t → IsCounted s → IsCounted t
Same-IsCounted s t (e, g) w = rw (e, g) w

abbrev Found : ℕ → ℕ → State → Option ℕ → Type 0
Found me fd s none = Unit
Found me fd s (some f) = get_elem? (ofile me s) fd ≡ some (some f)

argfd_found :
    (c : Caller) (f : ℕ) (s t : State) (o : Option ℕ)
    → enter_file c f s ≡ ok (o, t)
    → Same s t × (some f ≡ o)
unfolding enter_file
argfd_found c f s t o h =
    let (l, e1, h1) = >>=-eq-ok (enter_recovery_critical_section_nodes c Kind.file f s.locks) _ h in
    ground arith

argfd_lem :
    (c : Caller) (me fd : ℕ) (s t : State) (o : Option ℕ)
    → argfd c me fd s ≡ ok (o, t)
    → Same s t × Found me fd s o
unfolding argfd
argfd_lem c me fd s t o h = elim (Option-cases (get_elem? (ofile me s) fd)) [
  | inl e ↦ let q : none ≡ o = ground arith in (ground arith, rw (← q) tt)
  | inr (none, e) ↦ let q : none ≡ o = ground arith in (ground arith, rw (← q) tt)
  | inr (some f, e) ↦ let (same, q) = argfd_found c f s t o (ground arith) in (same, rw (← q) e)
]

leave_ftable-Same : (c : Caller) (r q : ℤ) (s t : State) → leave_ftable c r s ≡ ok (q, t) → Same s t
unfolding leave_ftable
leave_ftable-Same c r q s t h =
    let (l, e1, h1) = >>=-eq-ok (exit_recovery_critical_section c rl_flag_ftable 0 s.locks) _ h in
    ground arith

leave_file-Same :
    (c : Caller) (f : ℕ) (r q : ℤ) (s t : State) → leave_file c f r s ≡ ok (q, t) → Same s t
unfolding leave_file
leave_file-Same c f r q s t h =
    let (l, e1, h1) = >>=-eq-ok (exit_recovery_critical_section_nodes c Kind.file f s.locks) _ h in
    leave_ftable-Same c r q (record s { locks = l }) t h1

-- One more descriptor for `f`, and one less.
more-Counted :
    (f me fd : ℕ) (ref : ℕ → ℕ) (oss : List Ofile)
    → Counted ref oss
    → get_elem? (get_or oss me []) fd ≡ some none
    → Counted (upd ref f (ref f + 1)) (set oss me (set (get_or oss me []) fd (some f)))
unfolding upd
more-Counted f me fd ref oss w e g = ground (arith, w f, w g, total-set g me oss fd none (some f) e)

less-Counted :
    (f me fd : ℕ) (ref : ℕ → ℕ) (oss : List Ofile)
    → Counted ref oss
    → get_elem? (get_or oss me []) fd ≡ some (some f)
    → Counted (upd ref f (ref f - 1)) (set oss me (set (get_or oss me []) fd none))
unfolding upd
less-Counted f me fd ref oss w e g = ground (arith, w f, w g, total-set g me oss fd (some f) none e)

dup_file-IsCounted :
    (c : Caller) (me f : ℕ) (q : ℤ) (s t : State)
    → IsCounted s
    → dup_file c me f s ≡ ok (q, t)
    → IsCounted t
unfolding dup_file fdalloc put_fd filedup
dup_file-IsCounted c me f q s t w h = elim (Option-cases (free_fd (ofile me s))) [
  | inl e ↦ Same-IsCounted s t (leave_file-Same c f (negsuc 0) q s t (ground arith)) w
  | inr (fd, e) ↦ elim (Bool-cases (s.ref f == 0)) [
    | inl z ↦ absurd (ground arith)
    | inr z ↦
        let u : State = record s {
          ofiles = set s.ofiles me (set (ofile me s) fd (some f));
          ref = upd s.ref f (s.ref f + 1);
        } in
        Same-IsCounted u t (leave_file-Same c f (pos fd) q u t (ground arith))
          (more-Counted f me fd s.ref s.ofiles w (free_fd-none (ofile me s) fd e))
  ]
]

-- `dup` keeps each file's count equal to the number of its descriptors.
pub sys_dup-IsCounted :
    (c : Caller) (me fd : ℕ) (q : ℤ) (s t : State)
    → IsCounted s
    → sys_dup c me fd s ≡ ok (q, t)
    → IsCounted t
unfolding sys_dup
sys_dup-IsCounted c me fd q s t w h =
    let (l, e1, h1) = >>=-eq-ok (enter_recovery_critical_section c rl_flag_ftable 0 s.locks) _ h in
    let ((o, u), e2, h2) = >>=-eq-ok (argfd c me fd (record s { locks = l })) _ h1 in
    let (same, found) = argfd_lem c me fd (record s { locks = l }) u o e2 in
    let wu : IsCounted u = Same-IsCounted (record s { locks = l }) u same w in
    elim (Option-cases o) [
      | inl e ↦ Same-IsCounted u t (leave_ftable-Same c (negsuc 0) q u t (rw e at h2)) wu
      | inr (f, e) ↦ dup_file-IsCounted c me f q u t wu (rw e at h2)
    ]

-- What `fileclose` leaves.
fileclose_lem :
    (c : Caller) (last : Last) (f : ℕ) (s t : State)
    → fileclose c last f s ≡ ok t
    → (t.ref ≡ upd s.ref f (s.ref f - 1)) × (t.ofiles ≡ s.ofiles)
unfolding fileclose
fileclose_lem c last f s t h = elim (Bool-cases (s.ref f == 0)) [
  | inl z ↦ absurd (ground arith)
  | inr z ↦ elim (Bool-cases (ltb 0 (s.ref f - 1))) [
    | inl b ↦
        let (l, e1, h1) =
          >>=-eq-ok (exit_recovery_critical_section_nodes c Kind.file f s.locks)
            (λ l. ok (record s { locks = l; ref = upd s.ref f (s.ref f - 1) })) {t = t}
            (ground arith) in
        ground arith
    | inr b ↦
        let (l, e1, h1) =
          >>=-eq-ok (close_last last (s.kind f) s.locks)
            (λ l. exit_recovery_critical_section_nodes c Kind.file f l >>= λ l'.
              ok (record s {
                locks = l';
                ref = upd s.ref f 0;
                kind = upd s.kind f FileType.fd_none;
              }))
            {t = t} (ground arith) in
        let (l', e2, h2) = >>=-eq-ok (exit_recovery_critical_section_nodes c Kind.file f l) _ h1 in
        let one : s.ref f - 1 ≡ 0 = ground arith in rw one (ground arith)
  ]
]

close_file-IsCounted :
    (c : Caller) (last : Last) (me fd f : ℕ) (q : ℤ) (u t : State)
    → IsCounted u
    → get_elem? (ofile me u) fd ≡ some (some f)
    → ◌>>=◌ {T = ℤ × State} (fileclose c last f (put_fd me fd none u)) (leave_ftable c (pos 0))
      ≡ ok (q, t)
    → IsCounted t
unfolding put_fd
close_file-IsCounted c last me fd f q u t w e h =
    let (v, e1, h1) = >>=-eq-ok (fileclose c last f (put_fd me fd none u)) _ h in
    let (er, eo) = fileclose_lem c last f (put_fd me fd none u) v e1 in
    let wv : IsCounted v = rw (er, eo) (less-Counted f me fd u.ref u.ofiles w e) in
    Same-IsCounted v t (leave_ftable-Same c (pos 0) q v t h1) wv

-- When `close` returns, the reference count of every file is still the number of descriptors that lead to
-- it, given that it was before; also when the file's last descriptor is closed, and when there is no
-- such descriptor.
pub sys_close-IsCounted :
    (c : Caller) (last : Last) (me fd : ℕ) (q : ℤ) (s t : State)
    → IsCounted s
    → sys_close c last me fd s ≡ ok (q, t)
    → IsCounted t
unfolding sys_close put_fd
sys_close-IsCounted c last me fd q s t w h =
    let (l, e1, h1) = >>=-eq-ok (enter_recovery_critical_section c rl_flag_ftable 0 s.locks) _ h in
    let ((o, u), e2, h2) = >>=-eq-ok (argfd c me fd (record s { locks = l })) _ h1 in
    let (same, found) = argfd_lem c me fd (record s { locks = l }) u o e2 in
    let wu : IsCounted u = Same-IsCounted (record s { locks = l }) u same w in
    elim (Option-cases o) [
      | inl e ↦ Same-IsCounted u t (leave_ftable-Same c (negsuc 0) q u t (rw e at h2)) wu
      | inr (f, e) ↦
          let here : get_elem? (ofile me u) fd ≡ some (some f) = rw same.1 (rw e at found) in
          close_file-IsCounted c last me fd f q u t wu here (rw e at h2)
    ]
