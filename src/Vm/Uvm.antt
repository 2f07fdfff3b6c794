-- ===== src/Vm/Uvm.antt =====
-- kernel/vm.c: the memory of a user process. What the pages hold is not kept. `k` bounds the rounds of
-- `PTDS_delete`.
pub mod Runs
use ev.Prelude.{
  ℕ, zero, suc, ◌+◌, ◌-◌, ◌*◌, ◌/◌, ◌%◌, ◌^◌, ◌≡◌, Bool, true, false, not, ◌&&◌, ◌||◌, Option, none,
  some, ◌==◌, ltb, leb, if◌then◌else◌, Result, ok, panic, fault, asleep, ◌>>=◌, upd,
}
use ev.Prelude.Int.{ℤ, pos, negsuc}
use ev.Params.{pgsize}
use ev.RecoveryLock.Locks.{Caller}
use ev.MList.Pagetable.{delete_ptb_mlist}
use ev.Vm.{
  State, px, pte2pa, has_v, pgrounddown, pgroundup, set_word, alloc_page, enter_trans, exit_trans,
  entry_size,
}
use ev.Vm.Walk.{walk, mappages, page_rounds}
use ev.Vm.Ptdup.{l0_ptes_add}
use ev.Vm.Ptdup.Pack.{pted_word}
use ev.Vm.Ptdup.Delete.{l0_ptes_delete, free_page}
use ev.Vm.Ptdup.Clear.{l0_ptes_clear_user}

-- One round of `uvmunmap`.
unfoldable pub unmap_page : Caller → (me root a : ℕ) → (do_free : Bool) → State → Result State
unfolding walk px has_v free_page pte2pa set_word
unmap_page c me root a do_free s = walk c me root a false s >>= λ (o, t). elim o [
  | none ↦ panic
  | some table ↦
      let pte = t.mem table (px 0 a) in
      if not (has_v pte)
      then panic
      else if pte % 1024 == 1
      then panic
      else (if do_free then free_page c me (pte2pa pte) t else ok t) >>= λ u.
          ok (record u { mem = set_word u.mem table (px 0 a) 0 })
]

unfoldable pub unmap_from :
    Caller → (me root rounds a : ℕ) → (do_free : Bool) → State → Result State
unfolding unmap_page
unmap_from c me root zero a do_free s = unmap_page c me root a do_free s
unmap_from c me root (suc n) a do_free s =
    unmap_page c me root a do_free s >>= unmap_from c me root n (a + pgsize) do_free

unfoldable pub uvmunmap : Caller → (k me root va size : ℕ) → (do_free : Bool) → State → Result State
unfolding enter_trans unmap_from page_rounds pgrounddown l0_ptes_delete exit_trans
uvmunmap c k me root va size do_free s =
    enter_trans me s
    >>= unmap_from c me root (page_rounds va size) (pgrounddown va) do_free
    >>= l0_ptes_delete c k root va (page_rounds va size)
    >>= exit_trans me

unfoldable pub uvmcreate : Caller → State → Result (ℕ × State)
unfolding alloc_page upd
uvmcreate c s = alloc_page c s >>= λ (r, t).
    if r == 0 then panic else ok (r, record t { mem = upd t.mem r (λ i. 0) })

-- PTE_W|PTE_R|PTE_X|PTE_U.
abbrev pub wrxu : ℕ
wrxu = 0x1e

-- The result of `mappages` is not looked at; a null page faults in `memset`.
unfoldable pub uvminit : Caller → (me root sz : ℕ) → State → Result State
unfolding alloc_page enter_trans mappages l0_ptes_add pted_word exit_trans
uvminit c me root sz s =
    if leb pgsize sz
    then panic
    else alloc_page c s >>= λ (mem, s1).
        if mem == 0
        then fault
        else enter_trans me s1 >>= mappages c me root 0 pgsize mem wrxu >>= λ (r, s2).
            l0_ptes_add c root (pted_word 0 mem wrxu) false s2 >>= exit_trans me

-- The size that is returned, and the state.
unfoldable pub uvmdealloc : Caller → (k me root oldsz newsz : ℕ) → State → Result (ℕ × State)
unfolding pgroundup uvmunmap
uvmdealloc c k me root oldsz newsz s =
    if leb oldsz newsz
    then ok (oldsz, s)
    else if ltb (pgroundup newsz) (pgroundup oldsz)
    then (uvmunmap c k me root (pgroundup newsz) (oldsz - pgroundup newsz) true s >>= λ t.
        ok (newsz, t))
    else ok (newsz, s)

-- The loop of `freewalk` from the entry `i` on; `free_child` frees the table below.
unfoldable pub free_entries :
    (ℕ → State → Result State) → (rounds table i : ℕ) → State → Result State
unfolding has_v pte2pa set_word
free_entries free_child zero table i s = ok s
free_entries free_child (suc n) table i s =
    let pte = s.mem table i in
    (if has_v pte
      then (if pte / 2 % 8 == 0
          then (free_child (pte2pa pte) s >>= λ t. ok (record t { mem = set_word t.mem table i 0 }))
          else panic)
      else ok s)
    >>= free_entries free_child n table (i + 1)

-- `levels` bounds the depth; three levels are all that a page table has.
unfoldable pub freewalk : Caller → (levels me table : ℕ) → State → Result State
unfolding enter_trans free_entries free_page delete_ptb_mlist exit_trans
freewalk c zero me table s = asleep
freewalk c (suc n) me table s =
    enter_trans me s
    >>= free_entries (freewalk c n me) entry_size table 0
    >>= free_page c me table
    >>= λ t. exit_trans me (record t { ptb_list = delete_ptb_mlist table t.ptb_list })

unfoldable pub uvmfree : Caller → (k me root sz : ℕ) → State → Result State
unfolding uvmunmap freewalk
uvmfree c k me root sz s = uvmunmap c k me root 0 sz true s >>= freewalk c 3 me root

unfoldable pub uvmclear : Caller → (k me root va : ℕ) → State → Result State
unfolding walk enter_trans set_word px l0_ptes_clear_user exit_trans
uvmclear c k me root va s = walk c me root va false s >>= λ (o, t). elim o [
  | none ↦ panic
  | some table ↦ enter_trans me t >>= λ u.
      let pte = u.mem table (px 0 va) in
      l0_ptes_clear_user c k root va
        (record u { mem = set_word u.mem table (px 0 va) (pte - pte / 16 % 2 * 16) })
      >>= exit_trans me
]

unfoldable pub kvmmap : Caller → (me kernel_root va pa sz perm : ℕ) → State → Result State
unfolding mappages
kvmmap c me root va pa sz perm s = mappages c me root va sz pa perm s >>= λ (r, t). elim r [
  | pos n ↦ if n == 0 then ok t else panic
  | negsuc n ↦ panic
]

unfoldable pub kvmpa : Caller → (me kernel_root va : ℕ) → State → Result ℕ
unfolding walk has_v pte2pa px
kvmpa c me root va s = walk c me root va false s >>= λ (o, t). elim o [
  | none ↦ panic
  | some table ↦
      let pte = t.mem table (px 0 va) in if has_v pte then ok (pte2pa pte + va % pgsize) else panic
]
