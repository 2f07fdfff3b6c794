-- ===== src/InodeRecovery.antt =====
-- kernel/recovery_handler_inode.c: files and processes after the cache of inodes was moved to a new page
-- without the broken entry. The Fail-Stop tests and the After-Treatment are in Policy/Inode.antt. The locks
-- and a file's `off` and `major` are left out.
pub mod Solved
mod Tests
use ev.Prelude.{
  ℕ, zero, suc, ◌+◌, ◌≡◌, Bool, true, false, not, ◌&&◌, List, [], ◌∷◌, Option, none, some, ◌==◌,
  if◌then◌else◌,
}
use ev.Prelude.Int.{ℤ, is_pos, pred}
use ev.Params.{ninode}
use ev.Files.{fd_none}
use ev.FileRecovery.{File, ProcFiles, move_procs}

-- The addresses of the entries of the old and of the new cache, and the broken index.
pub record Caches : Type 0 where
  pub old : ℕ → ℕ
  pub new : ℕ → ℕ
  pub b_idx : ℕ

pub record State : Type 0 where
  pub files : List File
  pub procs : List ProcFiles
  pub outstanding : ℤ

-- The loop over the entries from `i` on that moves a pointer; `all` says that the broken entry is moved
-- as well.
unfoldable pub move_ip : Caches → (all : Bool) → (rounds i ip : ℕ) → ℕ
move_ip c all zero i ip = ip
move_ip c all (suc k) i ip =
    move_ip c all k (suc i)
      (if (if all then true else not (i == c.b_idx)) && ip == c.old i then c.new i else ip)

-- The broken inode's file is closed.
unfoldable pub clear_file : File → File
clear_file f = record f { kind = fd_none; ref = 0; ip = 0 }

unfoldable pub solve_file : Caches → File → File
unfolding move_ip clear_file
solve_file c f =
    if f.ip == c.old c.b_idx then clear_file f else record f { ip = move_ip c false ninode 0 f.ip }

unfoldable pub solve_files : Caches → List File → List File
unfolding solve_file
solve_files c [] = []
solve_files c (f ∷ fs) = solve_file c f ∷ solve_files c fs

-- The descriptors of the closed files; `reopen` says that they are reserved.
unfoldable pub evict :
    Caches → (reopen : Bool) → (i : ℕ) → List File → List ProcFiles → List ProcFiles
unfolding move_procs
evict c reopen i [] ps = ps
evict c reopen i (f ∷ fs) ps =
    evict c reopen (suc i) fs (if f.ip == c.old c.b_idx then move_procs i reopen ps else ps)

-- `b_fp`, the last file of the broken inode.
unfoldable pub last_file : Caches → (i : ℕ) → List File → Option ℕ → Option ℕ
last_file c i [] b_fp = b_fp
last_file c i (f ∷ fs) b_fp =
    last_file c (suc i) fs (if f.ip == c.old c.b_idx then some i else b_fp)

unfoldable pub move_cwds : Caches → List ProcFiles → List ProcFiles
unfolding move_ip
move_cwds c [] = []
move_cwds c (p ∷ ps) =
    (if p.pid == 0 then p else record p { cwd = move_ip c true ninode 0 p.cwd }) ∷ move_cwds c ps

unfoldable pub solve_inconsistency_inode : Caches → (reopen : Bool) → State → Option ℕ × State
unfolding solve_files evict last_file move_cwds
solve_inconsistency_inode c reopen s = (
  last_file c 0 s.files none,
  record {
    files = solve_files c s.files;
    procs = move_cwds c (evict c reopen 0 s.files s.procs);
    outstanding = if is_pos s.outstanding then pred s.outstanding else s.outstanding;
  },
)
