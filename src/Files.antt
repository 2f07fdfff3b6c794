-- ===== src/Files.antt =====
-- kernel/file.c and the descriptors of kernel/sysfile.c: the table of open files and its counts. A file
-- is its address. What the last close does in the pipe or the inode is an argument, as a step on the
-- recovery sections; the other fields of a file are left out.
pub mod Count
pub mod Sum
mod Tests
use ev.Prelude.{
  ℕ, zero, suc, ◌+◌, ◌-◌, ◌≡◌, Bool, true, false, List, [], ◌∷◌, Option, none, some, ◌==◌, ltb,
  if◌then◌else◌, get_elem?, set, get_or, Result, ok, panic, fault, asleep, ◌>>=◌, upd,
}
use ev.Prelude.Int.{ℤ, pos, negsuc}
use ev.RecoveryLock.Index.{Kind, rl_flag_ftable}
use ev.RecoveryLock.Locks
use ev.RecoveryLock.Locks.{
  Caller, enter_recovery_critical_section, enter_recovery_critical_section_nodes,
  exit_recovery_critical_section, exit_recovery_critical_section_nodes,
}

-- `enum` of `struct file`.
pub data FileType : Type 0 where
  fd_none fd_pipe fd_inode fd_device : FileType

abbrev pub Ofile : Type 0
Ofile = List (Option ℕ)

-- `ftable` has the addresses of the entries, `ofiles` the descriptors of each process.
pub record State : Type 0 where
  pub locks : Locks.State
  pub ftable : List ℕ
  pub ref : ℕ → ℕ
  pub kind : ℕ → FileType
  pub ofiles : List Ofile

-- `pipeclose`, and `iput` in a log operation.
pub record Last : Type 0 where
  pub pipe : Locks.State → Result Locks.State
  pub inode : Locks.State → Result Locks.State

unfoldable pub alloc_from : Caller → List ℕ → State → Result (Option ℕ × State)
unfolding upd
alloc_from c [] s = ok (none, s)
alloc_from c (f ∷ fs) s = enter_recovery_critical_section_nodes c Kind.file f s.locks >>= λ l.
    if s.ref f == 0
    then ok (some f, record s { locks = l; ref = upd s.ref f 1 })
    else exit_recovery_critical_section_nodes c Kind.file f l >>= λ l'.
        alloc_from c fs (record s { locks = l' })

unfoldable pub filealloc : Caller → State → Result (Option ℕ × State)
unfolding alloc_from
filealloc c s = alloc_from c s.ftable s

unfoldable pub filedup : ℕ → State → Result State
unfolding upd
filedup f s = if s.ref f == 0 then panic else ok (record s { ref = upd s.ref f (s.ref f + 1) })

unfoldable pub close_last : Last → FileType → Locks.State → Result Locks.State
close_last last FileType.fd_none l = ok l
close_last last FileType.fd_pipe l = last.pipe l
close_last last FileType.fd_inode l = last.inode l
close_last last FileType.fd_device l = last.inode l

-- Both ends leave the section of the file.
unfoldable pub fileclose : Caller → Last → ℕ → State → Result State
unfolding upd close_last
fileclose c last f s =
    if s.ref f == 0
    then panic
    else if ltb 0 (s.ref f - 1)
    then (exit_recovery_critical_section_nodes c Kind.file f s.locks >>= λ l.
        ok (record s { locks = l; ref = upd s.ref f (s.ref f - 1) }))
    else close_last last (s.kind f) s.locks >>= λ l.
        exit_recovery_critical_section_nodes c Kind.file f l >>= λ l'.
        ok (record s { locks = l'; ref = upd s.ref f 0; kind = upd s.kind f FileType.fd_none })

-- The first free descriptor.
unfoldable pub free_fd : Ofile → Option ℕ
free_fd [] = none
free_fd (none ∷ os) = some 0
free_fd (some f ∷ os) = elim (free_fd os) [ none ↦ none | some fd ↦ some (suc fd) ]

abbrev pub ofile : ℕ → State → Ofile
ofile me s = get_or s.ofiles me []

unfoldable pub put_fd : ℕ → ℕ → Option ℕ → State → State
put_fd me fd o s = record s { ofiles = set s.ofiles me (set (ofile me s) fd o) }

unfoldable pub fdalloc : ℕ → ℕ → State → Option (ℕ × State)
unfolding free_fd put_fd
fdalloc me f s = elim (free_fd (ofile me s)) [
  | none ↦ none
  | some fd ↦ some (fd, put_fd me fd (some f) s)
]

unfoldable pub enter_file : Caller → ℕ → State → Result (Option ℕ × State)
enter_file c f s = enter_recovery_critical_section_nodes c Kind.file f s.locks >>= λ l.
    ok (some f, record s { locks = l })

-- `argfd`: the file of a descriptor, after the section of the file was entered.
unfoldable pub argfd : Caller → ℕ → ℕ → State → Result (Option ℕ × State)
unfolding enter_file
argfd c me fd s = elim (get_elem? (ofile me s) fd) [
  | some (some f) ↦ enter_file c f s
  | _ ↦ ok (none, s)
]

unfoldable pub leave_ftable : Caller → ℤ → State → Result (ℤ × State)
leave_ftable c r s = exit_recovery_critical_section c rl_flag_ftable 0 s.locks >>= λ l.
    ok (r, record s { locks = l })

unfoldable pub leave_file : Caller → ℕ → ℤ → State → Result (ℤ × State)
unfolding leave_ftable
leave_file c f r s = exit_recovery_critical_section_nodes c Kind.file f s.locks >>= λ l.
    leave_ftable c r (record s { locks = l })

unfoldable pub dup_file : Caller → ℕ → ℕ → State → Result (ℤ × State)
unfolding fdalloc filedup leave_file
dup_file c me f s = elim (fdalloc me f s) [
  | none ↦ leave_file c f (negsuc 0) s
  | some (fd, t) ↦ filedup f t >>= leave_file c f (pos fd)
]

unfoldable pub sys_dup : Caller → ℕ → ℕ → State → Result (ℤ × State)
unfolding argfd dup_file leave_ftable
sys_dup c me fd s = enter_recovery_critical_section c rl_flag_ftable 0 s.locks >>= λ l.
    argfd c me fd (record s { locks = l }) >>= λ (o, t). elim o [
      | none ↦ leave_ftable c (negsuc 0) t
      | some f ↦ dup_file c me f t
    ]

unfoldable pub sys_close : Caller → Last → ℕ → ℕ → State → Result (ℤ × State)
unfolding argfd put_fd fileclose leave_ftable
sys_close c last me fd s = enter_recovery_critical_section c rl_flag_ftable 0 s.locks >>= λ l.
    argfd c me fd (record s { locks = l }) >>= λ (o, t). elim o [
      | none ↦ leave_ftable c (negsuc 0) t
      | some f ↦ fileclose c last f (put_fd me fd none t) >>= leave_ftable c (pos 0)
    ]
