-- ===== src/FileRecovery.antt =====
-- kernel/recovery_handler_file.c: the table of files built again without the broken entry. The Fail-Stop
-- tests of the call stack and the After-Treatment are in Policy/File.antt; the locks and the M-List of files are left out.
pub mod Found
pub mod Whole
mod Tests
use ev.Prelude.{
  ℕ, zero, suc, ◌+◌, ◌≡◌, Bool, true, false, not, ◌&&◌, ◌||◌, List, [], ◌∷◌, Option, none, some,
  ◌==◌, if◌then◌else◌, length, set, ltb, get_elem?, upd, Result, ok, ◌>>=◌,
}
use ev.RecoveryLock.Locks
use ev.RecoveryLock.Waits.{check_and_wait_procs_in_rcs_file}
use ev.Tracker.Queue.{NmiInfo}
use ev.Files.{FileType, fd_none, fd_pipe, fd_inode, fd_device}

-- `struct file` without its offset and its device number, which are copied along; 0 is a null pointer.
pub record File : Type 0 where
  pub kind : FileType
  pub ip : ℕ
  pub pipe : ℕ
  pub readable : Bool
  pub writable : Bool
  pub ref : ℕ

-- The types of kernel/stat.h.
pub data InodeType : Type 0 where
  t_none t_dir t_file t_device : InodeType

pub record Inode : Type 0 where
  pub addr : ℕ
  pub ref : ℕ
  pub kind : InodeType

-- An entry of `p->ofile`: RESERVED is the pointer -1, and a file is its index in the table.
pub data Slot : Type 0 where
  null reserved : Slot
  file : ℕ → Slot

pub record ProcFiles : Type 0 where
  pub pid : ℕ
  pub ofile : List Slot
  pub cwd : ℕ
  pub killed : Bool

pub record State : Type 0 where
  pub files : List File
  pub inodes : List Inode
  pub procs : List ProcFiles
  pub readopen : ℕ → Bool
  pub writeopen : ℕ → Bool

abbrev pub reset_file : File
reset_file = record {
  kind = fd_none;
  ip = 0;
  pipe = 0;
  readable = false;
  writable = false;
  ref = 0;
}

unfoldable pub is_none : FileType → Bool
is_none fd_none = true
is_none _ = false

unfoldable pub is_pipe : FileType → Bool
is_pipe fd_pipe = true
is_pipe _ = false

-- The last readable end of a pipe and the last other writable one, apart from the broken entry.
unfoldable pub pipe_ends : (broken i : ℕ) → List File → (r_fp w_fp : Option ℕ) → Option ℕ × Option ℕ
unfolding is_pipe
pipe_ends broken i [] r_fp w_fp = (r_fp, w_fp)
pipe_ends broken i (f ∷ fs) r_fp w_fp =
    let is_reader = not (i == broken) && is_pipe f.kind && f.readable in
    let is_writer = not (i == broken) && is_pipe f.kind && not f.readable && f.writable in
    pipe_ends broken (suc i) fs (if is_reader then some i else r_fp)
      (if is_writer then some i else w_fp)

unfoldable pub has_file : ℕ → List Slot → Bool
has_file i [] = false
has_file i (file j ∷ ss) = j == i || has_file i ss
has_file i (null ∷ ss) = has_file i ss
has_file i (reserved ∷ ss) = has_file i ss

-- The processes that have the other end open.
unfoldable pub kill_users : ℕ → List ProcFiles → List ProcFiles
unfolding has_file
kill_users i [] = []
kill_users i (p ∷ ps) =
    (if has_file i p.ofile then record p { killed = true } else p) ∷ kill_users i ps

-- An end without the other one.
unfoldable pub lose_end : Option ℕ × Option ℕ → State → State
unfolding kill_users upd
lose_end (some r, none) s = elim (get_elem? s.files r) [
  | none ↦ s
  | some f ↦ record s { readopen = upd s.readopen f.pipe false; procs = kill_users r s.procs }
]
lose_end (none, some w) s = elim (get_elem? s.files w) [
  | none ↦ s
  | some f ↦ record s { writeopen = upd s.writeopen f.pipe false; procs = kill_users w s.procs }
]
lose_end (none, none) s = s
lose_end (some r, some w) s = s

-- How many files of the table, apart from the broken entry, lead to the inode.
unfoldable pub match_files : (broken ip i : ℕ) → List File → ℕ
unfolding is_none
match_files broken ip i [] = 0
match_files broken ip i (f ∷ fs) =
    (if not (i == broken || is_none f.kind) && f.ip == ip then 1 else 0)
    + match_files broken ip (suc i) fs

unfoldable pub match_cwds : ℕ → List ProcFiles → ℕ
match_cwds ip [] = 0
match_cwds ip (p ∷ ps) = (if p.cwd == ip then 1 else 0) + match_cwds ip ps

unfoldable pub is_file_or_device : InodeType → Bool
is_file_or_device t_file = true
is_file_or_device t_device = true
is_file_or_device _ = false

-- The inode of the broken file: the first with more references than were counted.
unfoldable pub find_inode : (broken : ℕ) → List File → List ProcFiles → List Inode → Option ℕ
unfolding match_files match_cwds is_file_or_device
find_inode broken fs ps [] = none
find_inode broken fs ps (ip ∷ ips) =
    let rest = find_inode broken fs ps ips in
    if ip.ref == 0
    then rest
    else if not (ip.ref == match_files broken ip.addr 0 fs + match_cwds ip.addr ps)
        && is_file_or_device ip.kind
    then some ip.addr
    else rest

-- A descriptor of the broken file is reserved for opening it again, or closed.
unfoldable pub move_slot : (broken : ℕ) → (reopen : Bool) → Slot → Slot
move_slot broken reopen null = null
move_slot broken reopen reserved = reserved
move_slot broken reopen (file i) = if i == broken then if reopen then reserved else null else file i

unfoldable pub move_slots : (broken : ℕ) → (reopen : Bool) → List Slot → List Slot
unfolding move_slot
move_slots broken reopen [] = []
move_slots broken reopen (s ∷ ss) = move_slot broken reopen s ∷ move_slots broken reopen ss

unfoldable pub move_procs : (broken : ℕ) → (reopen : Bool) → List ProcFiles → List ProcFiles
unfolding move_slots
move_procs broken reopen [] = []
move_procs broken reopen (p ∷ ps) =
    record p { ofile = move_slots broken reopen p.ofile } ∷ move_procs broken reopen ps

-- `bfd_num`.
unfoldable pub count_slots : ℕ → List Slot → ℕ
count_slots broken [] = 0
count_slots broken (file i ∷ ss) = (if i == broken then 1 else 0) + count_slots broken ss
count_slots broken (null ∷ ss) = count_slots broken ss
count_slots broken (reserved ∷ ss) = count_slots broken ss

unfoldable pub count_procs : ℕ → List ProcFiles → ℕ
unfolding count_slots
count_procs broken [] = 0
count_procs broken (p ∷ ps) = count_slots broken p.ofile + count_procs broken ps

-- What goes on to the After-Treatment: the new state, `b_ip`, `bfd_num` and `pipe`.
pub record Surgery : Type 0 where
  pub state : State
  pub b_ip : Option ℕ
  pub bfd_num : ℕ
  pub pipe : Bool

unfoldable pub is_some : Option ℕ → Bool
is_some none = false
is_some (some i) = true

-- How the rebuilding ends: with -1, with Fail-Stop, or with what goes on to the After-Treatment.
pub data Ending : Type 0 where
  not_found : Ending
  fail_stop : State → Ending
  rebuilt : Surgery → Ending

-- 0 is a null pointer.
abbrev pub pointer : Option ℕ → ℕ
pointer none = 0
pointer (some ip) = ip

-- `recovery_handler_file` between its tests of the call stack and its After-Treatment. `uc` says that user
-- cooperation is enabled for the process, `address` are the addresses of the entries of the new table.
unfoldable pub recovery_handler_file :
    (uc : Bool) (address : ℕ → ℕ)
    → Option (List NmiInfo)
    → Locks.State
    → (broken : ℕ) → State
    → Result Ending
unfolding pipe_ends lose_end find_inode move_procs count_procs is_some
    check_and_wait_procs_in_rcs_file
recovery_handler_file uc address queue locks broken s =
    if not (ltb broken (length s.files))
    then ok not_found
    else let (r_fp, w_fp) = pipe_ends broken 0 s.files none none in
      let t = lose_end (r_fp, w_fp) s in
      let pipe = is_some w_fp || is_some r_fp in
      let b_ip = find_inode broken t.files t.procs t.inodes in
      check_and_wait_procs_in_rcs_file (address broken) (pointer b_ip) queue locks >>= λ stop. ok (
        if stop
        then fail_stop t
        else rebuilt (record {
          state = record t {
            files = set t.files broken reset_file;
            procs = move_procs broken (uc && not pipe) t.procs;
          };
          b_ip = b_ip;
          bfd_num = count_procs broken t.procs;
          pipe = pipe;
        }))
