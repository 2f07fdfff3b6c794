-- ===== src/InodeRecovery/Solved.antt =====
-- kernel/recovery_handler_inode.c: no file and no descriptor is left on the broken inode, and all others
-- lead to the moved inodes.
use ev.Prelude.{
  ℕ, zero, suc, ◌+◌, ◌<◌, ◌≤◌, ◌≡◌, ◌≢◌, refl, sym, ap, ◌∙◌, inl, inr, Bool, true, false, not, ◌&&◌,
  List, [], ◌∷◌, some, ◌==◌, ==_refl, if◌then◌else◌, get_elem?, Bool-cases, eq_or_ne, arith,
}
use ev.Params.{ninode}
use ev.FileRecovery.{
  File, ProcFiles, Slot, null, reserved, file, has_file, move_slot, move_slots, move_procs,
}
use ev.FileRecovery.Whole.{NoDescriptor, move_procs-NoDescriptor}
use ev.InodeRecovery.{
  Caches, State, move_ip, clear_file, solve_file, solve_files, evict, move_cwds,
  solve_inconsistency_inode,
}

-- The entries of both caches are different places.
pub record IsApart (c : Caches) : Type 0 where
  pub old_once : (i j : ℕ) → c.old i ≡ c.old j → i ≡ j
  pub new_apart : (i j : ℕ) → c.new i ≢ c.old j

-- A pointer that is in no entry from `i` on stays.
move_ip-none :
    (c : Caches) (k i ip : ℕ) → ((j : ℕ) → i ≤ j → ip ≢ c.old j) → move_ip c false k i ip ≡ ip
unfolding move_ip
move_ip-none c zero i ip ne = refl
move_ip-none c (suc k) i ip ne =
    let e : (ip == c.old i) ≡ false = ground (arith, ne i (omega arith)) in
    let ih = move_ip-none c k (suc i) ip (λ j le. ne j (omega arith)) in
    elim (Bool-cases (i == c.b_idx)) [ inl b ↦ rw b ih | inr b ↦ rw (b, e) ih ]

move_ip-moves :
    (c : Caches) (k i j : ℕ)
    → IsApart c
    → j ≢ c.b_idx
    → i ≤ j
    → j < i + k
    → move_ip c false k i (c.old j) ≡ c.new j
unfolding move_ip
move_ip-moves c zero i j w ne le lt = absurd (omega arith)
move_ip-moves c (suc k) i j w ne le lt = elim (eq_or_ne i j) [
  | inl p ↦
      let b : (i == c.b_idx) ≡ false = let d : i ≢ c.b_idx = rw p ne in ground arith in
      let e : (c.old j == c.old i) ≡ true = rw p (==_refl (c.old j)) in
      let n : (if (if false then true else not (i == c.b_idx)) && c.old j == c.old i
            then c.new i
            else c.old j)
          ≡ c.new j =
        rw (b, e) (ap c.new p) in
      rw n (move_ip-none c k (suc i) (c.new j) (λ a l. w.new_apart j a))
  | inr q ↦
      let e : (c.old j == c.old i) ≡ false =
        let d : c.old j ≢ c.old i = λ x. q (sym (w.old_once j i x)) in ground arith in
      let ih = move_ip-moves c k (suc i) j w ne (omega arith) (omega arith) in
      elim (Bool-cases (i == c.b_idx)) [ inl b ↦ rw b ih | inr b ↦ rw (b, e) ih ]
]

solve_files-get :
    (c : Caches) (fs : List File) (j : ℕ) (f : File)
    → get_elem? fs j ≡ some f
    → get_elem? (solve_files c fs) j ≡ some (solve_file c f)
unfolding solve_files
solve_files-get c [] j f h = absurd (ground arith)
solve_files-get c (g ∷ fs) zero f h = let e : g ≡ f = ground arith in rw e refl
solve_files-get c (g ∷ fs) (suc j) f h = solve_files-get c fs j f h

move_slots-keeps :
    (j i : ℕ) (reopen : Bool) (ss : List Slot)
    → has_file j ss ≡ false
    → has_file j (move_slots i reopen ss) ≡ false
unfolding has_file move_slots move_slot
move_slots-keeps j i reopen [] h = refl
move_slots-keeps j i reopen (null ∷ ss) h = move_slots-keeps j i reopen ss h
move_slots-keeps j i reopen (reserved ∷ ss) h = move_slots-keeps j i reopen ss h
move_slots-keeps j i reopen (file a ∷ ss) h =
    let e : (a == j) ≡ false = ground arith in
    let ih = move_slots-keeps j i reopen ss (rw e at h) in
    elim (Bool-cases (a == i)) [
      | inl b ↦ elim (Bool-cases reopen) [ inl r ↦ rw (b, r) ih | inr r ↦ rw (b, r) ih ]
      | inr b ↦ rw (b, e) ih
    ]

move_procs-keeps :
    (j i : ℕ) (reopen : Bool) (ps : List ProcFiles)
    → NoDescriptor j ps
    → NoDescriptor j (move_procs i reopen ps)
unfolding move_procs
move_procs-keeps j i reopen [] w = tt
move_procs-keeps j i reopen (p ∷ ps) (h, w) =
    (move_slots-keeps j i reopen p.ofile h, move_procs-keeps j i reopen ps w)

evict-keeps :
    (c : Caches) (reopen : Bool) (j i : ℕ) (fs : List File) (ps : List ProcFiles)
    → NoDescriptor j ps
    → NoDescriptor j (evict c reopen i fs ps)
unfolding evict
evict-keeps c reopen j i [] ps w = w
evict-keeps c reopen j i (f ∷ fs) ps w = elim (Bool-cases (f.ip == c.old c.b_idx)) [
  | inl e ↦ rw e (
      evict-keeps c reopen j (suc i) fs (move_procs i reopen ps) (move_procs-keeps j i reopen ps w))
  | inr e ↦ rw e (evict-keeps c reopen j (suc i) fs ps w)
]

evict-gone :
    (c : Caches) (reopen : Bool) (i a : ℕ) (fs : List File) (ps : List ProcFiles) (f : File)
    → get_elem? fs a ≡ some f
    → f.ip ≡ c.old c.b_idx
    → NoDescriptor (i + a) (evict c reopen i fs ps)
unfolding evict
evict-gone c reopen i a [] ps f h e = absurd (ground arith)
evict-gone c reopen i zero (g ∷ fs) ps f h e =
    let q : g ≡ f = ground arith in
    let b : (g.ip == c.old c.b_idx) ≡ true = rw q ground arith in
    let z : i + 0 ≡ i = omega arith in
    rw (b, z)
      (evict-keeps c reopen i (suc i) fs (move_procs i reopen ps)
        (move_procs-NoDescriptor i reopen ps))
evict-gone c reopen i (suc a) (g ∷ fs) ps f h e =
    let z : suc i + a ≡ i + suc a = omega arith in
    let ih =
      evict-gone c reopen (suc i) a fs
        (if g.ip == c.old c.b_idx then move_procs i reopen ps else ps) f h e in
    rw z at ih

move_cwds-keeps :
    (c : Caches) (j : ℕ) (ps : List ProcFiles) → NoDescriptor j ps → NoDescriptor j (move_cwds c ps)
unfolding move_cwds
move_cwds-keeps c j [] w = tt
move_cwds-keeps c j (p ∷ ps) (h, w) = elim (Bool-cases (p.pid == 0)) [
  | inl e ↦ rw e (h, move_cwds-keeps c j ps w)
  | inr e ↦ rw e (h, move_cwds-keeps c j ps w)
]

differs : (a b : ℕ) → a ≢ b → (a == b) ≡ false
differs a b ne = ground arith

from_first :
    (c : Caches) (reopen : Bool) (a : ℕ) (fs : List File) (ps : List ProcFiles) (f : File)
    → get_elem? fs a ≡ some f
    → f.ip ≡ c.old c.b_idx
    → NoDescriptor a (evict c reopen 0 fs ps)
from_first c reopen a fs ps f h e =
    let z : 0 + a ≡ a = omega arith in let g = evict-gone c reopen 0 a fs ps f h e in rw z at g

-- Every file of the broken inode is closed, without a descriptor that leads to it; every file of another
-- inode of the cache leads to the same entry of the new cache and is otherwise as it was. The entries of
-- the two caches are different places.
pub solve_inconsistency_inode-solved :
    (c : Caches) (reopen : Bool) (s : State) (a : ℕ) (f : File)
    → IsApart c
    → get_elem? s.files a ≡ some f
    → let t = (solve_inconsistency_inode c reopen s).1 in
      (f.ip ≡ c.old c.b_idx → (get_elem? t.files a ≡ some (clear_file f)) × NoDescriptor a t.procs)
      × ((j : ℕ)
          → j < ninode
          → j ≢ c.b_idx
          → f.ip ≡ c.old j
          → get_elem? t.files a ≡ some (record f { ip = c.new j }))
unfolding solve_inconsistency_inode solve_file
solve_inconsistency_inode-solved c reopen s a f w h =
    let g = solve_files-get c s.files a f h in
    (
      λ e.
          let b : (f.ip == c.old c.b_idx) ≡ true = ground arith in
          (
            rw b at g,
            move_cwds-keeps c a (evict c reopen 0 s.files s.procs)
                (from_first c reopen a s.files s.procs f h e),
          ),
      λ j lt ne e.
          let d : f.ip ≢ c.old c.b_idx = λ x. ne (w.old_once j c.b_idx (sym e ∙ x)) in
          let b : (f.ip == c.old c.b_idx) ≡ false = differs f.ip (c.old c.b_idx) d in
          let m : move_ip c false ninode 0 f.ip ≡ c.new j =
            rw e (move_ip-moves c ninode 0 j w ne (omega arith) lt) in
          rw (b, m) at g,
    )
