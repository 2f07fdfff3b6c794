-- ===== src/Vm/Recovery/Level1.antt =====
-- kernel/recovery_handler_pagetable.c: a table of level 1 that was built again.
use ev.Prelude.{
  ℕ, zero, suc, ◌+◌, ◌<◌, ◌≤◌, ◌≡◌, ◌≢◌, refl, sym, ◌∙◌, inl, inr, true, false, not, ◌&&◌, some,
  ◌==◌, eq_or_ne, ok, ◌>>=◌, >>=-eq-ok, Bool-cases, upd, upd_self, upd_ne, arith,
}
use ev.Prelude.Int.{ℤ}
use ev.RecoveryLock.Locks.{Caller}
use ev.Kalloc.{is_page}
use ev.Policy.{Code, Mode}
use ev.Vm.{State, Words, entry_size, px, pte2pa, has_v, register_table}
use ev.Vm.Ptdup.{find_table, put_head}
use ev.Vm.Walk.{find_l0}
use ev.Vm.Mirror.{Mirror, Fresh, pte2pa-table_pte, register_table-Same}
use ev.Vm.Mirror.Switch.{
  Switched, HeadSwitched, find_l0-other, switch-Mirror, set_word-Switched, find_l0_eq,
}
use ev.Vm.Recovery.{recovery_l1, copy_l1, switch_l1, redo_or_fail}
use ev.Vm.Recovery.Rebuilt.{corrupt}

-- The search finds the one entry that leads to the table.
pub find_table_unique :
    (k table : ℕ) (l2 : Words) (a i : ℕ)
    → table ≡ pte2pa (l2 i)
    → ((j : ℕ) → pte2pa (l2 j) ≡ table → j ≡ i)
    → a ≤ i
    → i < a + k
    → find_table k table l2 a ≡ some i
unfolding find_table
find_table_unique zero table l2 a i e u le lt = absurd (omega arith)
find_table_unique (suc k) table l2 a i e u le lt = elim (eq_or_ne a i) [
  | inl p ↦ ground arith
  | inr ne ↦
      let differs : (table == pte2pa (l2 a)) ≡ false = elim (Bool-cases (table == pte2pa (l2 a))) [
        | inl f ↦ absurd (ne (u a (ground arith)))
        | inr f ↦ f
      ] in
      rw differs (find_table_unique k table l2 (suc a) i e u (omega arith) (omega arith))
]

-- Where the search ends, the entry leads to the table.
pub find_table-leads :
    (k table : ℕ) (l2 : Words) (a i : ℕ) → find_table k table l2 a ≡ some i → table ≡ pte2pa (l2 i)
unfolding find_table
find_table-leads zero table l2 a i h = absurd (ground arith)
find_table-leads (suc k) table l2 a i h = elim (Bool-cases (table == pte2pa (l2 a))) [
  | inl e ↦ ground arith
  | inr e ↦ find_table-leads k table l2 (suc a) i (ground arith)
]

switch_l1-HeadSwitched :
    (root idx i new : ℕ) (s : State) (words : Words)
    → ((s.heads idx).l1 i).base ≢ 0
    → ((s.heads idx).l1 i).word ≡ words
    → HeadSwitched (s.heads idx) ((switch_l1 root idx i new s).heads idx) i new words
unfolding switch_l1 put_head upd
switch_l1-HeadSwitched root idx i new s words nz e = record {
  l2_entry = ground arith;
  l2_others = λ j ne. ground arith;
  l1_base = ground arith;
  l1_word = ground arith;
  l1_others = λ j ne. ground arith;
}

ids_kept : (root idx i new : ℕ) (s : State) → (switch_l1 root idx i new s).idx_ptdup ≡ s.idx_ptdup
unfolding switch_l1 put_head
ids_kept root idx i new s = refl

module _ (s : State) (idx root i new kernel_end : ℕ) (junk : Words) (w : Mirror s idx root)
    (fresh : Fresh s.mem root new) (page : is_page kernel_end new ≡ true)
    (v : has_v (s.mem root i) ≡ true) where
  abbrev broken : ℕ
  broken = pte2pa (s.mem root i)

  abbrev words : Words
  words = ((s.heads idx).l1 i).word

  found : i < entry_size → find_table entry_size broken (s.heads idx).l2.word 0 ≡ some i
  found lt =
      find_table_unique entry_size broken (s.heads idx).l2.word 0 i (rw (w.level2 i) refl)
        (λ j e. w.tree.distinct j i v (rw (w.level2 j) at e)) (omega arith) lt

  abbrev copied : State
  copied = record s { mem = upd (upd s.mem broken junk) new words }

  switched : Switched s.mem (switch_l1 root idx i new copied).mem root i new words
  unfolding switch_l1 put_head
  switched =
      set_word-Switched s.mem (upd s.mem broken junk) root i new words w.tree fresh
        (upd_ne s.mem broken junk root (λ e. w.tree.below i v (sym e)))
        (λ j ne u.
          upd_ne s.mem broken junk (pte2pa (s.mem root j)) (λ e. ne (w.tree.distinct j i v e)))

  same_way :
      (m : ℕ → Words)
      → Switched s.mem m root i new words
      → (va : ℕ) → find_l0 m root va ≡ find_l0 s.mem root va
  same_way m k va = elim (eq_or_ne (px 2 va) i) [
    | inr ne ↦ find_l0-other s.mem m root i new words k va ne
    | inl e ↦
        find_l0_eq s.mem m root root va
          (rw (e, k.entry, v) (pte2pa-table_pte kernel_end new page).0)
          (λ u.
            rw (e, k.entry, (pte2pa-table_pte kernel_end new page).1, k.table)
              ((w.level1 i v).1 (px 1 va)))
  ]

  never_blank : (upd (upd s.mem broken junk) new words new 0 == 0 && not (words 0 == 0)) ≡ false
  never_blank = rw (upd_self (upd s.mem broken junk) new words) (blank (words 0))
    where
      blank : (n : ℕ) → (n == 0 && not (n == 0)) ≡ false
      blank n = ground arith

  first_step :
      (c : Caller) (mode : Mode) (uc : ℤ) (pid : ℕ)
      → i < entry_size
      → recovery_l1 c mode uc pid root idx broken new (corrupt broken junk s)
        ≡ copy_l1 c mode uc pid root idx i new (corrupt broken junk s)
  unfolding recovery_l1
  first_step c mode uc pid lt = rw (found lt, recovery_l1) refl

  second_step :
      (c : Caller) (mode : Mode) (uc : ℤ) (pid : ℕ)
      → copy_l1 c mode uc pid root idx i new (corrupt broken junk s)
        ≡ register_table c pid new 1 (switch_l1 root idx i new copied) >>= λ u.
            ok (redo_or_fail uc, u)
  unfolding copy_l1
  second_step c mode uc pid =
      let nz : (((s.heads idx).l1 i).base == 0) ≡ false = ground (arith, (w.level1 i v).0) in
      rw (nz, never_blank) refl

-- When `recovery_L1` on a table of level 1 of which nothing is left returns, it gives the rest of the
-- handler the code for a redo if the process cooperates or is unknown and the code for a failed system
-- call if not, every virtual address leads to the same table of level 0 as before the error, and the
-- duplicates agree with the page tables again. They agreed before the error, the new page, one of the
-- kernel's memory, was no table of the process, and the process had the table of level 1.
pub recovery_l1-Mirror :
    (c : Caller) (mode : Mode) (uc : ℤ) (pid idx root i new kernel_end : ℕ) (junk : Words)
    (s t : State) (r : Code)
    → Mirror s idx root
    → Fresh s.mem root new
    → is_page kernel_end new ≡ true
    → has_v (s.mem root i) ≡ true
    → i < entry_size
    → let table = pte2pa (s.mem root i) in
      recovery_l1 c mode uc pid root idx table new (corrupt table junk s) ≡ ok (r, t)
      → (r ≡ redo_or_fail uc)
        × Mirror t idx root
        × ((va : ℕ) → find_l0 t.mem root va ≡ find_l0 s.mem root va)
recovery_l1-Mirror c mode uc pid idx root i new kernel_end junk s t r w fresh page v lt h =
    let u1 = switch_l1 root idx i new (copied s idx root i new kernel_end junk w fresh page v) in
    let (u, e, k) =
      >>=-eq-ok (register_table c pid new 1 u1) (λ u. ok (redo_or_fail uc, u)) {t = (r, t)}
        (sym (second_step s idx root i new kernel_end junk w fresh page v c mode uc pid)
          ∙ sym (first_step s idx root i new kernel_end junk w fresh page v c mode uc pid lt)
          ∙ h) in
    let (same, _) = register_table-Same c pid new 1 u1 u e in
    let te : u ≡ t = ground arith in
    let code : r ≡ redo_or_fail uc = ground arith in
    let ids : u1.idx_ptdup ≡ s.idx_ptdup =
      ids_kept root idx i new (copied s idx root i new kernel_end junk w fresh page v) in
    let words = words s idx root i new kernel_end junk w fresh page v in
    let sw : Switched s.mem t.mem root i new words =
      rw (← te, same.mem) (switched s idx root i new kernel_end junk w fresh page v) in
    let hs : HeadSwitched (s.heads idx) (t.heads idx) i new words =
      rw (← te, same.heads)
        (switch_l1-HeadSwitched root idx i new
          (copied s idx root i new kernel_end junk w fresh page v) words (w.level1 i v).0 refl) in
    (
      code,
      switch-Mirror s t idx root i new words w fresh (pte2pa-table_pte kernel_end new page) sw hs
          (rw (← te, same.idx_ptdup) ids),
      same_way s idx root i new kernel_end junk w fresh page v t.mem sw,
    )
