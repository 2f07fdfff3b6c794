-- ===== src/Vm.antt =====
-- kernel/vm.c, kernel/ptdup.c and kernel/recovery_handler_pagetable.c: page tables, their duplicates, and
-- the page tables built again from the duplicates. This file has the macros of kernel/riscv.h on page
-- table entries and the state; a page is a function from the index to the word.
pub mod Ptdup
pub mod Mirror
pub mod Recovery
mod Tests
pub mod Pool
pub mod Uvm
pub mod Copy
pub mod Walk
use ev.Prelude.{
  ℕ, zero, suc, ◌+◌, ◌-◌, ◌*◌, ◌/◌, ◌%◌, ◌^◌, ◌≡◌, Bool, true, false, List, [], ◌∷◌, Option, none,
  some, ◌==◌, if◌then◌else◌, Result, ok, panic, fault, asleep, ◌>>=◌, upd,
}
use ev.Params.{pgsize}
use ev.RecoveryLock.Locks.{Caller}
use ev.Trans.{enter_trans_pagetable, exit_trans_pagetable}
use ev.Kalloc
use ev.Kalloc.{kalloc}
use ev.MList.Pagetable.{Page, pack, is_free, replace_pages, register_ptb_mlist}
use Prim.Native.Nat.{bit_or}

-- PTDUP_SIZE.
abbrev pub ptdup_size : ℕ
ptdup_size = 66

abbrev pub entry_size : ℕ
entry_size = 512

-- 1L << (9 + 9 + 9 + 12 - 1).
abbrev pub maxva : ℕ
maxva = 0x4000000000

-- PX(level, va).
unfoldable pub px : ℕ → ℕ → ℕ
px level va = va / 2 ^ (12 + 9 * level) % 512

-- PTE2PA and PA2PTE.
unfoldable pub pte2pa : ℕ → ℕ
pte2pa pte = pte / 1024 * 4096 % 2 ^ 64

unfoldable pub pa2pte : ℕ → ℕ
pa2pte pa = pa / 4096 * 1024 % 2 ^ 64

-- `pte & PTE_V` and `pte & PTE_U`.
unfoldable pub has_v : ℕ → Bool
has_v pte = pte % 2 == 1

unfoldable pub has_u : ℕ → Bool
has_u pte = pte / 16 % 2 == 1

-- `PA2PTE(pagetable) | PTE_V`, the entry that leads to a page table.
unfoldable pub table_pte : ℕ → ℕ
unfolding pa2pte
table_pte pa = bit_or (pa2pte pa) 1

-- PGROUNDDOWN and PGROUNDUP.
unfoldable pub pgrounddown : ℕ → ℕ
pgrounddown a = a / pgsize * pgsize

unfoldable pub pgroundup : ℕ → ℕ
pgroundup a = (a + pgsize - 1) / pgsize * pgsize

abbrev pub Words : Type 0
Words = ℕ → ℕ

-- What a pointer to a page of a duplicate leads to; a null pointer has base 0.
pub record Dup : Type 0 where
  pub base : ℕ
  pub word : Words

abbrev pub no_dup : Dup
no_dup = record { base = 0; word = λ i. 0 }

-- `struct ptdup_head`. `l1_base` is the page of the pointers `l1`; a list without a page is a null
-- pointer. Of a page of `l0_ptds` or `l0_pted` the last word is the way to the next page, and that of
-- the last page the way to the first.
pub record Head : Type 0 where
  pub l2 : Dup
  pub l1_base : ℕ
  pub l1 : ℕ → Dup
  pub l0_ptds : List Page
  pub l0_pted : List Page

-- `mem` has the pages of the page tables by address, `ptb_list` is the M-List of page tables.
pub record State : Type 0 where
  pub mem : ℕ → Words
  pub pages : Kalloc.State
  pub ptb_list : List Page
  pub idx_ptdup : List ℕ
  pub heads : ℕ → Head

unfoldable pub set_word : (ℕ → Words) → ℕ → ℕ → ℕ → ℕ → Words
unfolding upd
set_word m table i v = upd m table (upd (m table) i v)

unfoldable pub alloc_page : Caller → State → Result (ℕ × State)
alloc_page c s = kalloc c s.pages >>= λ (r, k). ok (r, record s { pages = k })

-- The calls of the transaction on page tables.
unfoldable pub enter_trans : ℕ → State → Result State
enter_trans me s = enter_trans_pagetable me s.pages.trans >>= λ t.
    ok (record s { pages = record s.pages { trans = t } })

unfoldable pub exit_trans : ℕ → State → Result State
exit_trans me s = exit_trans_pagetable me s.pages.trans >>= λ t.
    ok (record s { pages = record s.pages { trans = t } })

-- `register_ptb_mlist`, which takes a page when no word is free.
unfoldable pub register_table : Caller → (pid addr level : ℕ) → State → Result State
unfolding replace_pages is_free pack alloc_page register_ptb_mlist
register_table c pid addr level s = elim (replace_pages is_free (pack pid addr level) s.ptb_list) [
  | some qs ↦ ok (record s { ptb_list = qs })
  | none ↦ alloc_page c s >>= λ (page, t).
      ok (record t { ptb_list = register_ptb_mlist page pid addr level t.ptb_list })
]
