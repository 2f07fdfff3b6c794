-- ===== src/Vm/Ptdup/Clear.antt =====
-- kernel/ptdup.c: `L0_ptes_clear_user`, which takes the user bit of a page from the duplicates.
use ev.Prelude.{
  ℕ, ◌+◌, ◌-◌, ◌*◌, ◌/◌, ◌%◌, ◌^◌, Bool, true, false, ◌&&◌, List, [], ◌∷◌, Option, none, some, ◌==◌,
  ltb, leb, if◌then◌else◌, Result, ok, fault, ◌>>=◌,
}
use ev.Params.{pgsize}
use ev.RecoveryLock.Locks.{Caller}
use ev.MList.Pagetable.{Page}
use ev.Vm.{State, pte2pa, pa2pte}
use ev.Vm.Ptdup.{
  search_root, put_head, pted2va, va2pted, ppn2pted, pted2ppn, ptds2size, ptds2ub, ptds2order,
  ptds_pted_add,
}
use ev.Vm.Ptdup.Delete.{delete_ptds_if_any}
use Prim.Native.Nat.{bit_or}

-- PTE_W|PTE_X|PTE_R.
abbrev wxr : ℕ
wxr = 0xe

-- Without a list of PTEDs `PTDS_PTED_add` reads through a null pointer.
unfoldable pub add_pted : Caller → (idx content : ℕ) → State → Result State
unfolding ptds_pted_add put_head
add_pted c idx content s = elim (s.heads idx).l0_pted [
  | [] ↦ fault
  | p ∷ ps ↦ ptds_pted_add c content (p ∷ ps) s >>= λ (qs, t).
      ok (put_head idx (record (t.heads idx) { l0_pted = qs }) t)
]

-- The page behind `start_va`, whose physical page is the next or the one before.
unfoldable pub second_page : (e start_va start_pa : ℕ) → ℕ
unfolding va2pted ppn2pted pa2pte ptds2order ptds2ub
second_page e start_va start_pa =
    let pa : ℕ =
      if ptds2order e == 1
      then (start_pa + pgsize) % 2 ^ 64
      else (start_pa + 2 ^ 64 - pgsize) % 2 ^ 64 in
    bit_or (bit_or (bit_or (va2pted (start_va + pgsize)) (ppn2pted (pa2pte pa))) wxr) (ptds2ub e)

-- `PTDS_decompose_clear`; `false` is its return of 1. The word itself is not changed for a size
-- above 2.
unfoldable pub ptds_decompose_clear :
    Caller → (rounds root idx e : ℕ) → State → Result (Bool × State)
unfolding add_pted second_page va2pted ppn2pted pted2va pted2ppn ptds2size pte2pa pa2pte
    delete_ptds_if_any
ptds_decompose_clear c k root idx e s =
    let start_va = pted2va e in
    let start_ppn = pted2ppn e in
    let start_pa = pte2pa start_ppn in
    if ptds2size e == 2
    then (add_pted c idx (bit_or (bit_or (va2pted start_va) (ppn2pted start_ppn)) wxr) s
        >>= add_pted c idx (second_page e start_va start_pa)
        >>= delete_ptds_if_any c k root idx start_va (start_va + 2 * pgsize)
        >>= λ t. ok (true, t))
    else if ltb 2 (ptds2size e)
    then (let va = start_va + (ptds2size e - 2) * pgsize in
        let pa = start_pa + (ptds2size e - 2) * pgsize in
        add_pted c idx (bit_or (bit_or (va2pted va) (ppn2pted (pa2pte pa))) wxr) s
        >>= add_pted c idx (second_page e va pa)
        >>= λ t. ok (true, t))
    else ok (false, s)

-- The first word whose address is not above the target: the test of the end holds for all.
unfoldable pub find_ptds : (target_va : ℕ) → List ℕ → Option ℕ
unfolding pted2va
find_ptds target_va [] = none
find_ptds target_va (e ∷ es) =
    let rest = find_ptds target_va es in if leb (pted2va e) target_va then some e else rest

unfoldable pub find_ptds_pages : (target_va : ℕ) → List Page → Option ℕ
unfolding find_ptds
find_ptds_pages target_va [] = none
find_ptds_pages target_va (p ∷ ps) = elim (find_ptds target_va p.words) [
  | some e ↦ some e
  | none ↦ find_ptds_pages target_va ps
]

-- `p[i] & ~PTE_U` for the first PTED between the target and the next page, both included.
unfoldable pub clear_pted : (target_va : ℕ) → List ℕ → Option (List ℕ)
unfolding pted2va
clear_pted target_va [] = none
clear_pted target_va (e ∷ es) =
    let rest = clear_pted target_va es in
    if leb target_va (pted2va e) && leb (pted2va e) (target_va + pgsize)
    then some ((e - e / 16 % 2 * 16) ∷ es)
    else elim rest [ none ↦ none | some r ↦ some (e ∷ r) ]

unfoldable pub clear_pted_pages : (target_va : ℕ) → List Page → List Page
unfolding clear_pted
clear_pted_pages target_va [] = []
clear_pted_pages target_va (p ∷ ps) = elim (clear_pted target_va p.words) [
  | some ws ↦ record p { words = ws } ∷ ps
  | none ↦ p ∷ clear_pted_pages target_va ps
]

-- A failure is only printed.
unfoldable pub l0_ptes_clear_user : Caller → (rounds root target_va : ℕ) → State → Result State
unfolding search_root find_ptds_pages ptds_decompose_clear clear_pted_pages put_head
l0_ptes_clear_user c k root target_va s = elim (search_root root s.idx_ptdup) [
  | none ↦ ok s
  | some idx ↦ elim (find_ptds_pages target_va (s.heads idx).l0_ptds) [
    | some e ↦ ptds_decompose_clear c k root idx e s >>= λ (done, t). ok t
    | none ↦
        let h = s.heads idx in
        ok (put_head idx (record h { l0_pted = clear_pted_pages target_va h.l0_pted }) s)
  ]
]
