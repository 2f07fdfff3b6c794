-- ===== src/Vm/Uvm/Runs.antt =====
-- kernel/vm.c: `uvmalloc` and `uvmcopy`, which record the pages that they map as runs (PTDS) or one by
-- one (PTED).
use ev.Prelude.{
  ℕ, zero, suc, ◌+◌, ◌-◌, ◌*◌, ◌/◌, ◌%◌, ◌^◌, true, false, none, some, ◌==◌, ltb, if◌then◌else◌,
  Result, ok, panic, ◌>>=◌,
}
use ev.Prelude.Int.{ℤ, pos, negsuc}
use ev.Params.{pgsize}
use ev.RecoveryLock.Locks.{Caller}
use ev.Vm.{State, px, pa2pte, has_v, pgroundup, alloc_page, enter_trans, exit_trans}
use ev.Vm.Walk.{walk, mappages}
use ev.Vm.Ptdup.{va2pted, ppn2pted, ub2ptds, l0_ptes_add}
use ev.Vm.Ptdup.Delete.{free_page}
use ev.Vm.Uvm.{wrxu, uvmunmap, uvmdealloc}
use Prim.Native.Nat.{bit_or}

-- The variables of the loops; `bmem` is the page before.
pub record Run : Type 0 where
  pub ptds_size : ℕ
  pub order : ℕ
  pub bmem : ℕ
  pub entry : ℕ

abbrev pub no_run : Run
no_run = record { ptds_size = 0; order = 0; bmem = 0; entry = 0 }

-- `PPN2PTDS(PA2PTE(mem)) | VA2PTDS(a)`.
unfoldable pub start_of : (mem a : ℕ) → ℕ
unfolding ppn2pted pa2pte va2pted
start_of mem a = bit_or (ppn2pted (pa2pte mem)) (va2pted a)

-- `entry|ORDER2PTDS(order)|UB2PTDS(PTE_U)|ptds_size`.
unfoldable pub run_word : Run → ℕ
unfolding ub2ptds
run_word r = bit_or (bit_or (bit_or r.entry (r.order * 1024)) (ub2ptds 16)) r.ptds_size

-- The page `mem` at `a` goes on neither up nor down from the one before. What was counted is recorded;
-- `base` is the first address of the loop.
unfoldable pub end_run : Caller → (root base a mem : ℕ) → Run → State → Result State
unfolding l0_ptes_add run_word start_of
end_run c root base a mem r s =
    (if ltb 1 r.ptds_size
      then l0_ptes_add c root (run_word r) true s
      else l0_ptes_add c root (bit_or (start_of mem a) wrxu) false s)
    >>= λ t.
        if a == base + pgsize
        then l0_ptes_add c root (bit_or (start_of r.bmem base) wrxu) false t
        else ok t

-- The part of the loops behind `mappages`.
unfoldable pub note_page : Caller → (root base a mem : ℕ) → Run → State → Result (Run × State)
unfolding start_of end_run
note_page c root base a mem r s =
    let entry : ℕ = if r.ptds_size == 0 then bit_or r.entry (start_of mem a) else r.entry in
    let q = record r { entry = entry } in
    if (q.bmem + 2 ^ 64 - mem) % 2 ^ 64 == pgsize
    then ok (record q { order = 0; ptds_size = q.ptds_size + 1; bmem = mem }, s)
    else if (mem + 2 ^ 64 - q.bmem) % 2 ^ 64 == pgsize
    then ok (record q { order = 1; ptds_size = q.ptds_size + 1; bmem = mem }, s)
    else if q.bmem == 0
    then ok (record q { ptds_size = q.ptds_size + 1; bmem = mem }, s)
    else end_run c root base a mem q s >>= λ t.
        ok (record { ptds_size = 0; order = 0; bmem = mem; entry = 0 }, t)

-- What is recorded behind the loops.
unfoldable pub last_run : Caller → (root : ℕ) → Run → State → Result State
unfolding l0_ptes_add run_word
last_run c root r s =
    if ltb 1 r.ptds_size
    then l0_ptes_add c root (run_word r) true s
    else if r.entry == 0
    then ok s
    else l0_ptes_add c root (bit_or r.entry wrxu) false s

-- `uvmdealloc` and the `return 0`.
unfoldable pub give_up : Caller → (k me root a oldsz : ℕ) → State → Result (ℕ × State)
unfolding uvmdealloc exit_trans
give_up c k me root a oldsz s =
    uvmdealloc c k me root a oldsz s >>= λ (r, t). exit_trans me t >>= λ u. ok (0, u)

-- The loop of `uvmalloc` on the count of pages that are left.
unfoldable pub alloc_run :
    Caller → (k me root oldsz newsz rounds a : ℕ) → Run → State → Result (ℕ × State)
unfolding last_run exit_trans alloc_page give_up mappages free_page note_page
alloc_run c k me root oldsz newsz zero a r s =
    last_run c root r s >>= exit_trans me >>= λ t. ok (newsz, t)
alloc_run c k me root oldsz newsz (suc n) a r s = alloc_page c s >>= λ (mem, s1).
    if mem == 0
    then give_up c k me root a oldsz s1
    else mappages c me root a pgsize mem wrxu s1 >>= λ (done, s2). elim done [
      | negsuc x ↦ free_page c me mem s2 >>= give_up c k me root a oldsz
      | pos x ↦ note_page c root oldsz a mem r s2 >>= λ (q, s3).
          alloc_run c k me root oldsz newsz n (a + pgsize) q s3
    ]

-- The new size, 0 on an error.
unfoldable pub uvmalloc : Caller → (k me root oldsz newsz : ℕ) → State → Result (ℕ × State)
unfolding pgroundup enter_trans alloc_run
uvmalloc c k me root oldsz newsz s =
    if ltb newsz oldsz
    then ok (oldsz, s)
    else let start = pgroundup oldsz in
      enter_trans me s
      >>= alloc_run c k me root start newsz ((newsz + pgsize - 1 - start) / pgsize) start no_run

-- The label `err`.
unfoldable pub undo_copy : Caller → (k me new i : ℕ) → State → Result (ℤ × State)
unfolding exit_trans uvmunmap
undo_copy c k me new i s =
    exit_trans me s >>= uvmunmap c k me new 0 i true >>= λ t. ok (negsuc 0, t)

-- The entry of the old page table; without one the kernel stops.
unfoldable pub old_pte : Caller → (me old i : ℕ) → State → Result (ℕ × State)
unfolding walk has_v px
old_pte c me old i s = walk c me old i false s >>= λ (o, t). elim o [
  | none ↦ panic
  | some table ↦ if has_v (t.mem table (px 0 i)) then ok (t.mem table (px 0 i), t) else panic
]

unfoldable pub copy_run : Caller → (k me old new rounds i : ℕ) → Run → State → Result (ℤ × State)
unfolding last_run exit_trans old_pte alloc_page undo_copy mappages free_page note_page
copy_run c k me old new zero i r s = last_run c new r s >>= exit_trans me >>= λ t. ok (pos 0, t)
copy_run c k me old new (suc n) i r s = old_pte c me old i s >>= λ (pte, s1).
    alloc_page c s1 >>= λ (mem, s2).
    if mem == 0
    then undo_copy c k me new i s2
    else mappages c me new i pgsize mem (pte % 1024) s2 >>= λ (done, s3). elim done [
      | negsuc x ↦ free_page c me mem s3 >>= undo_copy c k me new i
      | pos x ↦
          note_page c new 0 i mem r s3 >>= λ (q, s4). copy_run c k me old new n (i + pgsize) q s4
    ]

unfoldable pub uvmcopy : Caller → (k me old new sz : ℕ) → State → Result (ℤ × State)
unfolding enter_trans copy_run
uvmcopy c k me old new sz s =
    enter_trans me s >>= copy_run c k me old new ((sz + pgsize - 1) / pgsize) 0 no_run
