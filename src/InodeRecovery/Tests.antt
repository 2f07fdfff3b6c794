-- ===== src/InodeRecovery/Tests.antt =====
-- kernel/recovery_handler_inode.c with two files, of which one is on the broken inode.
use ev.Prelude.{ℕ, ◌+◌, ◌*◌, ◌<◌, ◌≡◌, ◌≢◌, refl, Bool, true, [], ◌∷◌, some, get_elem?, arith}
use ev.Prelude.Int.{pos}
use ev.Params.{ninode}
use ev.Files.{fd_inode}
use ev.FileRecovery.{File, file}
use ev.FileRecovery.Whole.{NoDescriptor}
use ev.InodeRecovery.{Caches, State, clear_file, solve_inconsistency_inode}
use ev.InodeRecovery.Solved.{IsApart, solve_inconsistency_inode-solved}

abbrev caches : Caches
caches = record { old = λ i. 4096 + 2 * i; new = λ i. 4097 + 2 * i; b_idx = 1 }

caches-IsApart : IsApart caches
caches-IsApart = record { old_once = λ i j e. omega arith; new_apart = λ i j e. omega arith }

abbrev opened : ℕ → File
opened a = record { kind = fd_inode; ip = a; pipe = 0; readable = true; writable = true; ref = 1 }

abbrev before : State
before = record {
  files = opened 4096 ∷ opened 4098 ∷ [];
  procs = record { pid = 3; ofile = file 0 ∷ file 1 ∷ []; cwd = 4096; killed = Bool.false } ∷ [];
  outstanding = pos 1;
}

solve_inconsistency_inode-solved_example :
    let t = (solve_inconsistency_inode caches true before).1 in
    (4098 ≡ caches.old caches.b_idx
      → (get_elem? t.files 1 ≡ some (clear_file (opened 4098))) × NoDescriptor 1 t.procs)
    × ((j : ℕ)
        → j < ninode
        → j ≢ caches.b_idx
        → 4098 ≡ caches.old j
        → get_elem? t.files 1 ≡ some (record (opened 4098) { ip = caches.new j }))
solve_inconsistency_inode-solved_example =
    solve_inconsistency_inode-solved caches true before 1 (opened 4098) caches-IsApart refl
