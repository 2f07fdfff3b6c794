-- ===== src/FileRecovery/Whole.antt =====
-- kernel/recovery_handler_file.c: all that the handler does to the table and the processes.
use ev.Prelude.{ℕ, ◌≡◌, refl, inl, inr, Bool, false, List, [], ◌∷◌, ◌==◌, Bool-cases, All}
use ev.FileRecovery.{
  ProcFiles, State, Slot, null, reserved, file, has_file, match_cwds, move_slot, move_slots,
  move_procs,
}
use ev.RecoveryLock.Locks

-- What a lost end of a pipe leaves alone.
record Kept (s t : State) : Type 0 where
  files : t.files ≡ s.files
  inodes : t.inodes ≡ s.inodes
  cwds : (ip : ℕ) → match_cwds ip t.procs ≡ match_cwds ip s.procs

move_slots-gone :
    (broken : ℕ) (reopen : Bool) (ss : List Slot)
    → has_file broken (move_slots broken reopen ss) ≡ false
unfolding has_file move_slots move_slot
move_slots-gone broken reopen [] = refl
move_slots-gone broken reopen (null ∷ ss) = move_slots-gone broken reopen ss
move_slots-gone broken reopen (reserved ∷ ss) = move_slots-gone broken reopen ss
move_slots-gone broken reopen (file i ∷ ss) =
    let ih = move_slots-gone broken reopen ss in
    elim (Bool-cases (i == broken)) [
      | inl e ↦ elim (Bool-cases reopen) [ inl r ↦ rw (e, r) ih | inr r ↦ rw (e, r) ih ]
      | inr e ↦ rw (e, e) ih
    ]

abbrev pub NoDescriptor : ℕ → List ProcFiles → Type 0
NoDescriptor broken ps = All (λ p. has_file broken p.ofile ≡ false) ps

pub move_procs-NoDescriptor :
    (broken : ℕ) (reopen : Bool) (ps : List ProcFiles)
    → NoDescriptor broken (move_procs broken reopen ps)
unfolding move_procs
move_procs-NoDescriptor broken reopen [] = tt
move_procs-NoDescriptor broken reopen (p ∷ ps) =
    (move_slots-gone broken reopen p.ofile, move_procs-NoDescriptor broken reopen ps)
