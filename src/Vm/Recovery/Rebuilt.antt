-- ===== src/Vm/Recovery/Rebuilt.antt =====
-- kernel/recovery_handler_pagetable.c: the way through the page tables that were built again.
use ev.Prelude.{
  ℕ, zero, suc, ◌+◌, ◌<◌, ◌≡◌, ◌≢◌, refl, ap, ◌∙◌, inl, inr, true, false, List, [], ◌∷◌, none, some,
  ◌==◌, ok, >>=-eq-ok, Bool-cases, Option-cases, upd, upd_self, upd_ne, arith,
}
use ev.Params.{nproc}
use ev.RecoveryLock.Locks.{Caller}
use ev.Vm.{State, Words, px, pte2pa, has_v, register_table}
use ev.Vm.Ptdup.{search_root}
use ev.Vm.Walk.{find_l0}
use ev.Vm.Mirror.{Tree, Mirror, Fresh, register_table-Same}
use ev.Vm.Mirror.Switch.{find_l0_eq}
use ev.Vm.Recovery.{move_root, recovery_l2}

-- A memory error in a page: nothing is known about its words.
abbrev pub corrupt : ℕ → Words → State → State
corrupt page junk s = record s { mem = upd s.mem page junk }

search_root-none :
    (a x : ℕ) (xs : List ℕ)
    → search_root a (x ∷ xs) ≡ none
    → ((x == a) ≡ false) × (search_root a xs ≡ none)
unfolding search_root
search_root-none a x xs h = elim (Option-cases (search_root a xs)) [
  | inl e ↦ ground arith
  | inr (i, e) ↦ absurd (ground arith)
]

-- The renamed entry is the first of its name.
pub search_root-move_root :
    (rounds old new : ℕ) (xs : List ℕ) (i : ℕ)
    → search_root old xs ≡ some i
    → search_root new xs ≡ none
    → i < rounds
    → search_root new (move_root rounds old new xs) ≡ some i
unfolding search_root move_root
search_root-move_root zero old new xs i h out lt = absurd (omega arith)
search_root-move_root (suc k) old new [] i h out lt = absurd (ground arith)
search_root-move_root (suc k) old new (x ∷ xs) i h out lt = elim (Bool-cases (x == old)) [
  | inl e ↦ ground arith
  | inr e ↦ elim (Option-cases (search_root old xs)) [
    | inl f ↦ absurd (ground arith)
    | inr (j, f) ↦
        let p : i ≡ suc j = ground arith in
        let (differs, q) = search_root-none new x xs out in
        let r : search_root new (move_root k old new xs) ≡ some j =
          search_root-move_root k old new xs j f q (omega arith) in
        ground arith
  ]
]

module _ (s : State) (idx root new : ℕ) (junk : Words) (w : Mirror s idx root)
    (fresh : Fresh s.mem root new) where
  abbrev l2_words : ℕ → Words
  l2_words = upd (upd s.mem root junk) new (s.heads idx).l2.word

  copied : (i : ℕ) → l2_words new i ≡ s.mem root i
  copied i = let e = upd_self (upd s.mem root junk) new (s.heads idx).l2.word in rw e (w.level2 i)

  kept :
      (i : ℕ)
      → has_v (s.mem root i) ≡ true
      → l2_words (pte2pa (s.mem root i)) ≡ s.mem (pte2pa (s.mem root i))
  kept i v =
      let a =
        upd_ne (upd s.mem root junk) new (s.heads idx).l2.word (pte2pa (s.mem root i))
          (fresh.1 i) in
      let b = upd_ne s.mem root junk (pte2pa (s.mem root i)) (w.tree.below i v) in a ∙ b

  l2_find : (va : ℕ) → find_l0 l2_words new va ≡ find_l0 s.mem root va
  l2_find va =
      let e = copied (px 2 va) in
      find_l0_eq s.mem l2_words root new va (ap has_v e) (λ v. rw (e, kept (px 2 va) v) refl)

  l2_Tree : Tree l2_words new
  l2_Tree = record {
    distinct = λ i j v e. w.tree.distinct i j (rw (copied j) at v) (rw (copied i, copied j) at e);
    below = λ j v. rw (copied j) (fresh.1 j);
  }

  l2_level1 :
      (i : ℕ)
      → has_v (l2_words new i) ≡ true
      → (((s.heads idx).l1 i).base ≢ 0)
        × ((j : ℕ) → ((s.heads idx).l1 i).word j ≡ l2_words (pte2pa (l2_words new i)) j)
  l2_level1 i v =
      let e = copied i in
      let u : has_v (s.mem root i) ≡ true = rw e at v in
      let (b, f) = w.level1 i u in (b, λ j. rw (e, kept i u) (f j))

-- After `recovery_L2` on a page of which nothing is left, the new page table leads every virtual address
-- to the same table of level 0 as the old one before the error, and the duplicates are those of the
-- new page table. The duplicates agreed with the tables before the error, their index is below 65, and
-- the new page was no table of the process and had no duplicates.
pub recovery_l2-Mirror :
    (c : Caller) (pid idx root new : ℕ) (junk : Words) (s t : State)
    → Mirror s idx root
    → Fresh s.mem root new
    → search_root new s.idx_ptdup ≡ none
    → idx < nproc + 1
    → recovery_l2 c pid idx root new (corrupt root junk s) ≡ ok t
    → Mirror t idx new × ((va : ℕ) → find_l0 t.mem new va ≡ find_l0 s.mem root va)
unfolding recovery_l2 upd
recovery_l2-Mirror c pid idx root new junk s t w fresh out lt h =
    let m = l2_words s idx root new junk w fresh in
    let (u, e, k) =
      >>=-eq-ok (register_table c pid new 2 (record s { mem = m }))
        (λ u. ok (record u { idx_ptdup = move_root (nproc + 1) root new u.idx_ptdup })) {t = t} h in
    let (same, _) = register_table-Same c pid new 2 (record s { mem = m }) u e in
    let mem : t.mem ≡ m = ground (arith, same.mem) in
    let heads : t.heads ≡ s.heads = ground (arith, same.heads) in
    let ids : t.idx_ptdup ≡ move_root 65 root new s.idx_ptdup = ground (arith, same.idx_ptdup) in
    (
      record {
        tree = rw mem (l2_Tree s idx root new junk w fresh);
        at_idx = rw ids (search_root-move_root 65 root new s.idx_ptdup idx w.at_idx out lt);
        level2 = λ i. rw (mem, heads, copied s idx root new junk w fresh i) (w.level2 i);
        level1 = rw (mem, heads) (l2_level1 s idx root new junk w fresh);
      },
      λ va. rw mem (l2_find s idx root new junk w fresh va),
    )
