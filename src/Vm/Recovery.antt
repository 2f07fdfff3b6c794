-- ===== src/Vm/Recovery.antt =====
-- kernel/recovery_handler_pagetable.c: a page table built again on a new page from its duplicate. Which
-- codes the handler ends with is in Policy/Pagetable.antt.
pub mod Level1
pub mod Level0
pub mod Rebuilt
use ev.Prelude.{
  ℕ, zero, suc, ◌+◌, ◌-◌, ◌*◌, ◌/◌, ◌%◌, ◌^◌, ◌≡◌, Bool, true, false, not, ◌&&◌, ◌||◌, List, [],
  ◌∷◌, Option, none, some, ◌==◌, ltb, leb, if◌then◌else◌, Result, ok, panic, fault, asleep, ◌>>=◌,
  upd,
}
use ev.Prelude.Int.{ℤ, pos, negsuc}
use ev.Params.{nproc}
use ev.RecoveryLock.Locks.{Caller, Intr, exit_rcs_after_recovery}
use ev.Trans.{check_and_handle_trans_pagetable}
use ev.Kalloc.{kfree}
use ev.MList.Pagetable.{Page, is_free, delete_ptb_mlist}
use ev.Policy.{Code, Mode, Layout, is_conservative, truthy}
use ev.Policy.Pagetable.{check_all_fail_stop_cases, after_treatment_user_pagetable}
use ev.Vm.{
  State, Words, Head, Dup, entry_size, px, pte2pa, table_pte, set_word, alloc_page, register_table,
}
use ev.Vm.Ptdup.{
  find_table, put_head, pted2va, pted2ppn, pted2flags, ptds2size, ptds2order, ptds2ub, set_l1,
}
use Prim.Native.Nat.{bit_or}

-- The loop of `recovery_L2` over the first 65 entries of `idx_ptdup`.
unfoldable pub move_root : (rounds old new : ℕ) → List ℕ → List ℕ
move_root zero old new xs = xs
move_root (suc k) old new [] = []
move_root (suc k) old new (x ∷ xs) = (if x == old then new else x) ∷ move_root k old new xs

-- `new` is the page table of the process from here on.
unfoldable pub recovery_l2 : Caller → (pid idx address new : ℕ) → State → Result State
unfolding register_table move_root upd
recovery_l2 c pid idx address new s =
    register_table c pid new 2 (record s { mem = upd s.mem new (s.heads idx).l2.word }) >>= λ t.
    ok (record t { idx_ptdup = move_root (nproc + 1) address new t.idx_ptdup })

-- The code without a usable duplicate.
unfoldable pub no_dup_code : Mode → Code
unfolding is_conservative
no_dup_code mode = if is_conservative mode then Code.fail_stop else Code.process_kill

unfoldable pub redo_or_fail : ℤ → Code
unfolding truthy
redo_or_fail uc = if truthy uc then Code.syscall_redo else Code.syscall_fail

-- Both entries of level 2 lead to the new table of level 1.
unfoldable pub switch_l1 : (root idx i new : ℕ) → State → State
unfolding upd set_word table_pte put_head
switch_l1 root idx i new s =
    let h = s.heads idx in
    put_head idx (record h { l2 = record h.l2 { word = upd h.l2.word i (table_pte new) } })
      (record s { mem = set_word s.mem root i (table_pte new) })

-- What is done with the entry `i` of level 2 that was found.
unfoldable pub copy_l1 :
    Caller → Mode → (uc : ℤ) → (pid root idx i new : ℕ) → State → Result (Code × State)
unfolding no_dup_code redo_or_fail switch_l1 register_table upd
copy_l1 c mode uc pid root idx i new s =
    let target = (s.heads idx).l1 i in
    if target.base == 0
    then ok (Code.process_kill, s)
    else let t = record s { mem = upd s.mem new target.word } in
      if t.mem new 0 == 0 && not (target.word 0 == 0)
      then ok (no_dup_code mode, t)
      else register_table c pid new 1 (switch_l1 root idx i new t) >>= λ u. ok (redo_or_fail uc, u)

unfoldable pub recovery_l1 :
    Caller → Mode → (uc : ℤ) → (pid root idx address new : ℕ) → State → Result (Code × State)
unfolding find_table copy_l1 no_dup_code
recovery_l1 c mode uc pid root idx address new s =
    elim (find_table entry_size address (s.heads idx).l2.word 0) [
      | none ↦ ok (no_dup_code mode, s)
      | some i ↦ copy_l1 c mode uc pid root idx i new s
    ]

-- The run of a PTDS from the entry `num` on; the flag says that an entry was not empty. A write behind
-- the page faults.
unfoldable pub fill_run :
    (up : Bool) → (size num ppn flags : ℕ) → Words × Bool → Result (Words × Bool)
unfolding upd
fill_run up zero num ppn flags (new, failed) = ok (new, failed)
fill_run up (suc k) num ppn flags (new, failed) = elim (leb entry_size num) [
  | true ↦ fault
  | false ↦
      fill_run up k (num + 1) ((if up then ppn + 0x400 else ppn + 2 ^ 64 - 0x400) % 2 ^ 64) flags
        (if new num == 0 then (upd new num (bit_or ppn flags), failed) else (new, true))
]

-- PTE_D, PTE_X, PTE_W, PTE_R and PTE_V.
abbrev pub ptds_flags : ℕ
ptds_flags = 0x8f

unfoldable pub from_ptds : (sva e : ℕ) → Words × Bool → Result (Words × Bool)
unfolding is_free pted2va pted2ppn ptds2size ptds2order ptds2ub px fill_run
from_ptds sva e (new, failed) =
    if is_free e
    then ok (new, failed)
    else if leb sva (pted2va e) && leb (pted2va e) ((sva + 0x200000) % 2 ^ 64)
    then fill_run (ptds2order e == 1) (ptds2size e) (px 0 (pted2va e)) (pted2ppn e)
        (bit_or (ptds2ub e) ptds_flags) (new, failed)
    else ok (new, failed)

-- The loops over the pages of a list and their words.
unfoldable pub fold_words :
    (ℕ → Words × Bool → Result (Words × Bool)) → List ℕ → Words × Bool → Result (Words × Bool)
fold_words f [] r = ok r
fold_words f (e ∷ es) r = f e r >>= fold_words f es

unfoldable pub fold_pages :
    (ℕ → Words × Bool → Result (Words × Bool)) → List Page → Words × Bool → Result (Words × Bool)
unfolding fold_words
fold_pages f [] r = ok r
fold_pages f (p ∷ ps) r = fold_words f p.words r >>= fold_pages f ps

-- Without a page the list is a null pointer.
unfoldable pub reconst :
    (ℕ → Words × Bool → Result (Words × Bool)) → List Page → Words → Result (Words × Bool)
unfolding fold_pages
reconst f [] new = fault
reconst f (p ∷ ps) new = fold_pages f (p ∷ ps) (new, false)

unfoldable pub reconst_from_ptds : (idx sva : ℕ) → State → Words → Result (Words × Bool)
unfolding reconst from_ptds
reconst_from_ptds idx sva s new = reconst (from_ptds sva) (s.heads idx).l0_ptds new

unfoldable pub pte_of : ℕ → ℕ
unfolding pted2ppn pted2flags
pte_of e = bit_or (bit_or (bit_or (pted2ppn e) 0x80) (pted2flags e)) 1

-- Whether the page of a PTED lies in the 2 MB from `sva` on.
unfoldable pub is_in : ℕ → ℕ → Bool
unfolding pted2va is_free
is_in sva e = not (is_free e) && leb sva (pted2va e) && ltb (pted2va e) ((sva + 0x200000) % 2 ^ 64)

unfoldable pub from_pted : (sva e : ℕ) → Words × Bool → Result (Words × Bool)
unfolding is_in pted2va px pte_of upd
from_pted sva e (new, failed) =
    if not (is_in sva e)
    then ok (new, failed)
    else if new (px 0 (pted2va e)) == 0
    then ok (upd new (px 0 (pted2va e)) (pte_of e), failed)
    else ok (new, true)

unfoldable pub reconst_from_pted : (idx sva : ℕ) → State → Words → Result (Words × Bool)
unfolding reconst from_pted
reconst_from_pted idx sva s new = reconst (from_pted sva) (s.heads idx).l0_pted new

-- The search of `recovery_L0`: the indexes with which its two loops end.
unfoldable pub find_l0_entry : (rounds address : ℕ) → (ℕ → Dup) → (i j : ℕ) → ℕ × ℕ
unfolding find_table
find_l0_entry zero address l1 i j = (i, j)
find_l0_entry (suc k) address l1 i j =
    let found = elim (find_table entry_size address (l1 i).word 0) as (λ o. ℕ) [
      | none ↦ entry_size
      | some n ↦ n
    ] in
    if (l1 i).base == 0
    then find_l0_entry k address l1 (suc i) j
    else if ltb found entry_size
    then (i, found)
    else find_l0_entry k address l1 (suc i) entry_size

-- `(uint64)((i << 30) | (j << 21))` on an `int` of 32 bits.
unfoldable pub region : ℕ → ℕ → ℕ
region i j =
    let w = (i * 2 ^ 30 + j * 2 ^ 21) % 2 ^ 32 in
    if leb (2 ^ 31) w then w + (2 ^ 64 - 2 ^ 32) else w

unfoldable pub switch_l0 : (root idx i j new : ℕ) → State → State
unfolding upd set_word table_pte put_head set_l1 pte2pa
switch_l0 root idx i j new s =
    put_head idx (set_l1 i j (table_pte new) (s.heads idx))
      (record s { mem = set_word s.mem (pte2pa (s.mem root i)) j (table_pte new) })

-- Both lists; the second only when the first met no filled entry.
unfoldable pub rebuild_l0 : (idx sva : ℕ) → State → Words → Result (Words × Bool)
unfolding reconst_from_ptds reconst_from_pted
rebuild_l0 idx sva s new = reconst_from_ptds idx sva s new >>= λ (w, failed). elim failed [
  | true ↦ ok (w, true)
  | false ↦ reconst_from_pted idx sva s w
]

unfoldable pub recovery_l0 :
    Caller → (uc : ℤ) → (pid root idx address new : ℕ) → State → Result (Code × State)
unfolding find_l0_entry region rebuild_l0 switch_l0 register_table redo_or_fail upd
recovery_l0 c uc pid root idx address new s =
    let (i, j) = find_l0_entry entry_size address (s.heads idx).l1 0 0 in
    if i == entry_size && j == entry_size
    then panic
    else rebuild_l0 idx (region i j) s (s.mem new) >>= λ (w, failed).
        let t = record s { mem = upd s.mem new w } in
        if failed
        then ok (Code.process_kill, t)
        else if i == entry_size
        then fault
        else register_table c pid new 0 (switch_l0 root idx i j new t) >>= λ u.
            ok (redo_or_fail uc, u)

-- The `switch` on the level; the second component is the page table of the process.
unfoldable pub rebuild :
    Caller
    → Mode
    → (uc : ℤ) → (level pid root idx address new : ℕ) → Code
    → State
    → Result (Code × ℕ × State)
unfolding recovery_l2 recovery_l1 recovery_l0
rebuild c mode uc level pid root idx address new ret s =
    if level == 2
    then (recovery_l2 c pid idx address new s >>= λ t. ok (ret, new, t))
    else if level == 1
    then (recovery_l1 c mode uc pid root idx address new s >>= λ (r, t). ok (r, root, t))
    else if level == 0
    then (recovery_l0 c uc pid root idx address new s >>= λ (r, t). ok (r, root, t))
    else ok (Code.failed, root, s)

-- From the label `ret` on, without the broken commit of the log.
unfoldable pub end_recovery :
    Layout
    → Caller
    → (pid beyond address : ℕ) → List ℕ
    → Code × ℕ × State
    → Result (Code × ℕ × State)
unfolding delete_ptb_mlist after_treatment_user_pagetable truthy
end_recovery l c pid beyond address pcs (ret, root, s) =
    check_and_handle_trans_pagetable pid s.pages.trans >>= λ n.
    let code : Code = elim ret [
      | Code.syscall_fail ↦ if truthy n then Code.process_kill else Code.syscall_fail
      | r ↦ r
    ] in
    exit_rcs_after_recovery c pid Intr.none_of_these s.pages.locks >>= λ k. ok (
      after_treatment_user_pagetable l beyond pcs code,
      root,
      record s {
        ptb_list = delete_ptb_mlist address s.ptb_list;
        pages = record s.pages { locks = k };
      },
    )

unfoldable pub recovery_handler_pagetable :
    Layout
    → Mode
    → (uc : ℤ) → Caller
    → (me pid root level idx address beyond : ℕ) → List ℕ
    → State
    → Result (Code × ℕ × State)
unfolding alloc_page check_all_fail_stop_cases redo_or_fail no_dup_code rebuild end_recovery upd
recovery_handler_pagetable l mode uc c me pid root level idx address beyond pcs s =
    alloc_page c s >>= λ (new, t). elim (check_all_fail_stop_cases l mode pcs (redo_or_fail uc)) [
      | Code.fail_stop ↦ end_recovery l c pid beyond address pcs (Code.fail_stop, root, t)
      | ret ↦
          if (t.heads idx).l2.base == 0
          then (kfree c me new t.pages >>= λ k.
              end_recovery l c pid beyond address pcs
                (no_dup_code mode, root, record t { pages = k }))
          else if new == 0
          then panic
          else rebuild c mode uc level pid root idx address new ret
              (record t { mem = upd t.mem new (λ i. 0) })
            >>= end_recovery l c pid beyond address pcs
    ]
