-- ===== src/Vm/Ptdup/Delete.antt =====
-- kernel/ptdup.c: what is deleted from the duplicates.
use ev.Prelude.{
  ℕ, zero, suc, ◌+◌, ◌-◌, ◌*◌, ◌%◌, ◌^◌, true, ◌&&◌, ◌||◌, List, [], ◌∷◌, Option, none, some, ◌==◌,
  ltb, leb, if◌then◌else◌, set, Result, ok, asleep, ◌>>=◌, get_or,
}
use ev.RecoveryLock.Locks.{Caller}
use ev.MList.{fresh}
use ev.MList.Pagetable.{Page}
use ev.Vm.{State, Head, Dup, entry_size, no_dup}
use ev.Vm.Ptdup.{
  search_root, put_head, pted2va, va2pted, ppn2pted, pted2ppn, ptds2size, ptds2ub, ub2ptds,
  l0_ptes_add,
}
use ev.Params.{pgsize}
use Prim.Native.Nat.{bit_or}
use ev.Kalloc.{kfree}

-- `PTED_delete` on the words of a page.
unfoldable pub clear_range : (va_start va_end : ℕ) → List ℕ → List ℕ
unfolding pted2va
clear_range va_start va_end [] = []
clear_range va_start va_end (e ∷ es) =
    (if leb va_start (pted2va e) && ltb (pted2va e) va_end then fresh else e)
    ∷ clear_range va_start va_end es

unfoldable pub pted_delete : (va_start va_end : ℕ) → List Page → List Page
unfolding clear_range
pted_delete va_start va_end [] = []
pted_delete va_start va_end (p ∷ ps) =
    record p { words = clear_range va_start va_end p.words } ∷ pted_delete va_start va_end ps

unfoldable pub free_page : Caller → ℕ → ℕ → State → Result State
free_page c me page s = kfree c me page s.pages >>= λ k. ok (record s { pages = k })

-- The copies of level 1, from the entry `i` on.
unfoldable pub free_l1 : Caller → ℕ → (ℕ → Dup) → (rounds i : ℕ) → State → Result State
unfolding free_page
free_l1 c me l1 zero i s = ok s
free_l1 c me l1 (suc k) i s =
    (if (l1 i).base == 0 || (l1 i).base == fresh then ok s else free_page c me (l1 i).base s)
    >>= free_l1 c me l1 k (suc i)

unfoldable pub free_list : Caller → ℕ → List Page → State → Result State
unfolding free_page
free_list c me [] s = ok s
free_list c me (p ∷ ps) s = free_page c me p.base s >>= free_list c me ps

unfoldable pub free_unless_null : Caller → ℕ → ℕ → State → Result State
unfolding free_page
free_unless_null c me page s = if page == 0 then ok s else free_page c me page s

unfoldable pub free_head : Caller → ℕ → Head → State → Result State
unfolding free_l1 free_page free_unless_null free_list
free_head c me h s =
    (if h.l1_base == 0 then ok s else free_l1 c me h.l1 entry_size 0 s >>= free_page c me h.l1_base)
    >>= λ t.
        free_unless_null c me h.l2.base t >>= free_list c me h.l0_ptds >>= free_list c me h.l0_pted

-- After it the head is empty and the index free.
unfoldable pub ptdup_delete_all : Caller → (me root : ℕ) → State → Result State
unfolding search_root free_head put_head
ptdup_delete_all c me root s = elim (search_root root s.idx_ptdup) [
  | none ↦ ok s
  | some idx ↦ free_head c me (s.heads idx) s >>= λ t. ok (
      put_head idx
        (record { l2 = no_dup; l1_base = 0; l1 = λ i. no_dup; l0_ptds = []; l0_pted = [] })
        (record t { idx_ptdup = set t.idx_ptdup idx 0 }))
]

-- The word at a place of a list, counted over the 511 words of each page.
unfoldable pub word_at : List Page → ℕ → Option ℕ
word_at [] n = none
word_at (p ∷ ps) n =
    let rest = word_at ps (n - 511) in if ltb n 511 then some (get_or p.words n 0) else rest

unfoldable pub set_at : List Page → ℕ → ℕ → List Page
set_at [] n v = []
set_at (p ∷ ps) n v =
    let rest = set_at ps (n - 511) v in
    if ltb n 511 then record p { words = set p.words n v } ∷ ps else p ∷ rest

-- `PTDS2VA(e) + size * PGSIZE - 1`.
unfoldable pub ptds_end : ℕ → ℕ
unfolding pted2va ptds2size
ptds_end e = (pted2va e + ptds2size e * pgsize + (2 ^ 64 - 1)) % 2 ^ 64

-- The word of the second and of the fourth case. `size` is the whole size of the PTDS, so that its
-- new size is 0.
unfoldable pub back_part : (va_end e : ℕ) → ℕ
unfolding va2pted ppn2pted pted2ppn ptds2size ub2ptds ptds2ub
back_part va_end e =
    bit_or
      (bit_or
        (bit_or (va2pted (va_end + 1))
          (ppn2pted ((pted2ppn e + 2 ^ 64 - ptds2size e * pgsize) % 2 ^ 64)))
        (ub2ptds (ptds2ub e)))
      (ptds2size e - ptds2size e)

-- `dnode[i] | ~(0x1ff)`.
unfoldable pub front_part : ℕ → ℕ
front_part e = bit_or e (2 ^ 64 - 512)

unfoldable pub put_ptds : ℕ → ℕ → ℕ → State → State
unfolding set_at put_head
put_ptds idx n v s =
    put_head idx (record (s.heads idx) { l0_ptds = set_at (s.heads idx).l0_ptds n v }) s

-- One word of `PTDS_delete`; the counts that it returns are used nowhere.
unfoldable pub delete_one : Caller → (root idx va_start va_end n e : ℕ) → State → Result State
unfolding pted2va ptds_end ptds2size back_part front_part put_ptds l0_ptes_add
delete_one c root idx va_start va_end n e s =
    if leb va_start (pted2va e) && leb (ptds_end e) va_end
    then ok (put_ptds idx n 0 s)
    else if va_start == pted2va e && ltb va_end (ptds_end e)
    then ok (put_ptds idx n (back_part va_end e) s)
    else if ltb (pted2va e) va_start && ptds_end e == va_end
    then ok (put_ptds idx n (front_part e) s)
    else if ltb (pted2va e) va_start && ltb va_end (ptds_end e)
    then (l0_ptes_add c root (back_part va_end e) true s >>= λ t.
        ok (put_ptds idx n ((e + ptds2size e) % 2 ^ 64) t))
    else ok s

-- The loops of `PTDS_delete` from the place `n` on; the list can grow under them, and `asleep` stands
-- for too few rounds.
unfoldable pub ptds_delete : Caller → (rounds root idx va_start va_end n : ℕ) → State → Result State
unfolding word_at delete_one
ptds_delete c zero root idx va_start va_end n s = asleep
ptds_delete c (suc k) root idx va_start va_end n s = elim (word_at (s.heads idx).l0_ptds n) [
  | none ↦ ok s
  | some e ↦
      delete_one c root idx va_start va_end n e s
      >>= ptds_delete c k root idx va_start va_end (n + 1)
]

unfoldable pub delete_ptds_if_any :
    Caller → (rounds root idx va_start va_end : ℕ) → State → Result State
unfolding ptds_delete
delete_ptds_if_any c k root idx va_start va_end s = elim (s.heads idx).l0_ptds [
  | [] ↦ ok s
  | p ∷ ps ↦ ptds_delete c k root idx va_start va_end 0 s
]

-- `sz` counts the pages behind the first. The index 0 is left out.
unfoldable pub l0_ptes_delete : Caller → (rounds root va_start sz : ℕ) → State → Result State
unfolding search_root pted_delete put_head delete_ptds_if_any
l0_ptes_delete c k root va_start sz s = elim (search_root root s.idx_ptdup) [
  | none ↦ ok s
  | some zero ↦ ok s
  | some (suc i) ↦
      let va_end = va_start + (sz + 1) * pgsize in
      let h = s.heads (suc i) in
      delete_ptds_if_any c k root (suc i) va_start va_end
        (put_head (suc i) (record h { l0_pted = pted_delete va_start va_end h.l0_pted }) s)
]
