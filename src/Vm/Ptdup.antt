-- ===== src/Vm/Ptdup.antt =====
-- kernel/ptdup.c: the duplicates of page tables. Level 2 and level 1 are copied as pages; level 0 is
-- kept in two lists of words, a PTDS for a run of pages and a PTED for one page.
pub mod Clear
pub mod Delete
pub mod Init
pub mod Pack
use ev.Prelude.{
  ℕ, zero, suc, ◌+◌, ◌-◌, ◌*◌, ◌/◌, ◌%◌, ◌^◌, ◌≡◌, Bool, true, false, List, [], ◌∷◌, ◌++◌, Option,
  none, some, ◌==◌, if◌then◌else◌, replicate, set, Result, ok, panic, fault, asleep, ◌>>=◌, upd,
}
use ev.RecoveryLock.Locks.{Caller}
use ev.MList.{fresh}
use ev.MList.Pagetable.{Page, is_free, replace_pages}
use ev.Vm.{State, Head, Dup, Words, entry_size, pte2pa, alloc_page}
use Prim.Native.Nat.{bit_or}

-- The macros of kernel/ptdup.h on the words of the two lists.
unfoldable pub pted2va : ℕ → ℕ
pted2va e = e / 2 ^ 38 * 4096

unfoldable pub va2pted : ℕ → ℕ
va2pted va = va * 2 ^ 26 % 2 ^ 64

unfoldable pub pted2ppn : ℕ → ℕ
pted2ppn e = e / 2048 % 2 ^ 27 * 512

unfoldable pub ppn2pted : ℕ → ℕ
ppn2pted pte = pte / 1024 * 4096 % 2 ^ 64

unfoldable pub pted2flags : ℕ → ℕ
pted2flags e = e % 512

unfoldable pub ptds2size : ℕ → ℕ
ptds2size e = e % 512

unfoldable pub ptds2order : ℕ → ℕ
ptds2order e = e / 1024 % 2

unfoldable pub ptds2ub : ℕ → ℕ
ptds2ub e = e / 512 % 2 * 16

unfoldable pub ub2ptds : ℕ → ℕ
ub2ptds perm = perm / 16 % 2 * 512

-- The first index at which the word is.
unfoldable pub search_root : ℕ → List ℕ → Option ℕ
search_root a [] = none
search_root a (x ∷ xs) =
    let rest = search_root a xs in
    if x == a then some 0 else elim rest [ none ↦ none | some i ↦ some (suc i) ]

-- The loop over the entries of level 2 from `i` on: the first that leads to `table`.
unfoldable pub find_table : (rounds table : ℕ) → Words → ℕ → Option ℕ
unfolding pte2pa
find_table zero table l2 i = none
find_table (suc k) table l2 i =
    let rest = find_table k table l2 (suc i) in if table == pte2pa (l2 i) then some i else rest

unfoldable pub put_head : ℕ → Head → State → State
unfolding upd
put_head idx h s = record s { heads = upd s.heads idx h }

-- `(pagetable_t)kalloc()` filled with zeros; `memset` on a null pointer faults.
unfoldable pub zeroed : Caller → State → Result (Dup × State)
unfolding alloc_page
zeroed c s = alloc_page c s >>= λ (r, t).
    if r == 0 then fault else ok (record { base = r; word = λ i. 0 }, t)

-- A page of `kalloc` as the only one of a list.
unfoldable pub entry_list : Caller → State → Result (List Page × State)
unfolding alloc_page
entry_list c s = alloc_page c s >>= λ (r, t).
    if r == 0 then fault else ok (record { base = r; words = replicate 511 fresh } ∷ [], t)

unfoldable pub ptdup_init : Caller → ℕ → State → Result State
unfolding search_root zeroed entry_list put_head
ptdup_init c root s = elim (search_root 0 s.idx_ptdup) [
  | none ↦ panic
  | some idx ↦
      if root == 0
      then panic
      else zeroed c (record s { idx_ptdup = set s.idx_ptdup idx root }) >>= λ (l2, s1).
          zeroed c s1 >>= λ (page, s2). entry_list c s2 >>= λ (ptds, s3).
          entry_list c s3 >>= λ (pted, s4). ok (
            put_head idx
              (record {
                l2 = l2;
                l1_base = page.base;
                l1 = λ i. record { base = 0; word = λ j. 0 };
                l0_ptds = ptds;
                l0_pted = pted;
              })
              s4)
]

-- The new copy of level 1 and its entry in the copy of level 2.
unfoldable pub add_l1 : ℕ → ℕ → Dup → Head → Head
unfolding upd
add_l1 i content d h = record h {
  l1 = upd h.l1 i d;
  l2 = record h.l2 { word = upd h.l2.word i content };
}

unfoldable pub ptdup_create_l1 : Caller → (root table content : ℕ) → State → Result State
unfolding search_root find_table alloc_page add_l1 put_head
ptdup_create_l1 c root table content s = elim (search_root root s.idx_ptdup) [
  | none ↦ panic
  | some idx ↦ if table == 0 then panic else elim (find_table entry_size table (s.mem root) 0) [
    | none ↦ ok s
    | some i ↦ alloc_page c s >>= λ (r, t).
        if r == 0
        then panic
        else ok
            (put_head idx (add_l1 i content (record { base = r; word = λ j. 0 }) (t.heads idx)) t)
  ]
]

-- One entry of a copy of level 1.
unfoldable pub set_l1 : (i index content : ℕ) → Head → Head
unfolding upd
set_l1 i index content h = record h {
  l1 = upd h.l1 i (record (h.l1 i) { word = upd (h.l1 i).word index content });
}

unfoldable pub ptdup_update : (root table content index : ℕ) → State → Result State
unfolding search_root find_table set_l1 put_head
ptdup_update root table content index s = elim (search_root root s.idx_ptdup) [
  | none ↦ panic
  | some idx ↦
      if table == 0 then panic else elim (find_table entry_size table (s.heads idx).l2.word 0) [
        | none ↦ panic
        | some i ↦
            if ((s.heads idx).l1 i).base == 0
            then panic
            else ok (put_head idx (set_l1 i index content (s.heads idx)) s)
      ]
]

-- A full list: the last page loses its first word to `content`, and a page is added.
unfoldable pub add_page : (page content : ℕ) → List Page → List Page
add_page page content [] = []
add_page page content (p ∷ []) =
    record p { words = set p.words 0 content }
    ∷ record { base = page; words = replicate 511 fresh }
    ∷ []
add_page page content (p ∷ q ∷ ps) = p ∷ add_page page content (q ∷ ps)

-- `PTDS_PTED_add`. A word is never the address of a page, since it holds flags or a size.
unfoldable pub ptds_pted_add : Caller → ℕ → List Page → State → Result (List Page × State)
unfolding replace_pages is_free alloc_page add_page
ptds_pted_add c content ps s = elim (replace_pages is_free content ps) [
  | some qs ↦ ok (qs, s)
  | none ↦ alloc_page c s >>= λ (r, t). if r == 0 then panic else ok (add_page r content ps, t)
]

-- `flag` chooses the list of PTDS; without a list nothing is added.
unfoldable pub l0_ptes_add : Caller → (root content : ℕ) → (flag : Bool) → State → Result State
unfolding search_root ptds_pted_add put_head
l0_ptes_add c root content flag s = elim (search_root root s.idx_ptdup) [
  | none ↦ panic
  | some idx ↦ elim flag [
    | true ↦ elim (s.heads idx).l0_ptds [
      | [] ↦ ok s
      | p ∷ ps ↦ ptds_pted_add c content (p ∷ ps) s >>= λ (qs, t).
          ok (put_head idx (record (t.heads idx) { l0_ptds = qs }) t)
    ]
    | false ↦ elim (s.heads idx).l0_pted [
      | [] ↦ ok s
      | p ∷ ps ↦ ptds_pted_add c content (p ∷ ps) s >>= λ (qs, t).
          ok (put_head idx (record (t.heads idx) { l0_pted = qs }) t)
    ]
  ]
]
