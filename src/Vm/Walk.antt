-- ===== src/Vm/Walk.antt =====
-- kernel/vm.c: the way from a virtual address to its entry, and what is entered there.
pub mod Ready
pub mod Level1
pub mod Level2
pub mod Grow
use ev.Prelude.{
  ℕ, zero, suc, ◌+◌, ◌-◌, ◌*◌, ◌/◌, ◌%◌, ◌^◌, ◌≡◌, Bool, true, false, not, ◌&&◌, ◌||◌, Option, none,
  some, ◌==◌, ltb, leb, if◌then◌else◌, Result, ok, panic, fault, asleep, ◌>>=◌, upd,
}
use ev.Prelude.Int.{ℤ, pos, negsuc}
use ev.Params.{pgsize}
use ev.RecoveryLock.Locks.{Caller}
use ev.Vm.{
  State, Words, maxva, px, pte2pa, pa2pte, has_v, has_u, table_pte, pgrounddown, set_word,
  alloc_page, enter_trans, exit_trans, register_table,
}
use ev.Vm.Ptdup.{ptdup_create_l1, ptdup_update}
use Prim.Native.Nat.{bit_or}

-- What `walk` finds when it does not allocate: the address of the page of level 0.
unfoldable pub next_table : (ℕ → Words) → (table level va : ℕ) → Option ℕ
unfolding has_v pte2pa px
next_table m table level va =
    if has_v (m table (px level va)) then some (pte2pa (m table (px level va))) else none

unfoldable pub find_l0 : (ℕ → Words) → (root va : ℕ) → Option ℕ
unfolding next_table
find_l0 m root va = elim (next_table m root 2 va) [ none ↦ none | some t ↦ next_table m t 1 va ]

-- The duplicate of the new entry, once there are user processes.
unfoldable pub duplicate : Caller → (me root table level va new : ℕ) → State → Result State
unfolding register_table ptdup_create_l1 ptdup_update px
duplicate c me root table level va new s =
    if not (ltb 2 s.pages.trans.nextpid)
    then ok s
    else register_table c me new (level - 1) s >>= λ t.
        if level == 2
        then ptdup_create_l1 c root new (t.mem table (px level va)) t
        else if level == 1
        then ptdup_update root table (t.mem table (px level va)) (px 1 va) t
        else ok t

-- One round of the loop of `walk`; `none` is its `return 0`.
unfoldable pub descend :
    Caller
    → (me root : ℕ) → (alloc : Bool) → (table level va : ℕ) → State
    → Result (Option ℕ × State)
unfolding has_v pte2pa px alloc_page enter_trans set_word table_pte duplicate exit_trans upd
descend c me root alloc table level va s =
    if has_v (s.mem table (px level va))
    then ok (some (pte2pa (s.mem table (px level va))), s)
    else if not alloc
    then ok (none, s)
    else alloc_page c s >>= λ (r, s1).
        if r == 0
        then ok (none, s1)
        else enter_trans me (record s1 { mem = upd s1.mem r (λ i. 0) }) >>= λ s2.
            duplicate c me root table level va r
              (record s2 { mem = set_word s2.mem table (px level va) (table_pte r) })
            >>= λ s3. exit_trans me s3 >>= λ s4. ok (some r, s4)

-- The entry is the word `px 0 va` of the page that is given.
unfoldable pub walk : Caller → (me root va : ℕ) → (alloc : Bool) → State → Result (Option ℕ × State)
unfolding descend
walk c me root va alloc s =
    if leb maxva va
    then panic
    else descend c me root alloc root 2 va s >>= λ (o, t). elim o [
      | none ↦ ok (none, t)
      | some table ↦ descend c me root alloc table 1 va t
    ]

-- 0 where nothing is mapped for the user.
unfoldable pub walkaddr : (ℕ → Words) → (root va : ℕ) → ℕ
unfolding find_l0 px has_v has_u pte2pa
walkaddr m root va = if leb maxva va then 0 else elim (find_l0 m root va) [
  | none ↦ 0
  | some table ↦ let pte = m table (px 0 va) in if has_v pte && has_u pte then pte2pa pte else 0
]

-- One page; `false` when `walk` gets no page for a table.
unfoldable pub map_page : Caller → (me root a pa perm : ℕ) → State → Result (Bool × State)
unfolding walk has_v px pa2pte set_word
map_page c me root a pa perm s = walk c me root a true s >>= λ (o, t). elim o [
  | none ↦ ok (false, t)
  | some table ↦
      if has_v (t.mem table (px 0 a))
      then panic
      else ok (
        true,
        record t { mem = set_word t.mem table (px 0 a) (bit_or (bit_or (pa2pte pa) perm) 1) },
      )
]

-- The loop of `mappages`, with the count of pages behind `a`.
unfoldable pub map_from : Caller → (me root rounds a pa perm : ℕ) → State → Result (ℤ × State)
unfolding map_page
map_from c me root zero a pa perm s =
    map_page c me root a pa perm s >>= λ (mapped, t). ok (if mapped then pos 0 else negsuc 0, t)
map_from c me root (suc k) a pa perm s = map_page c me root a pa perm s >>= λ (mapped, t).
    elim mapped [
      | false ↦ ok (negsuc 0, t)
      | true ↦ map_from c me root k (a + pgsize) (pa + pgsize) perm t
    ]

-- `last = PGROUNDDOWN(va + size - 1)`, and the pages from that of `va` to it, on 64 bits.
unfoldable pub last_page : ℕ → ℕ → ℕ
unfolding pgrounddown
last_page va size = pgrounddown ((va + size + (2 ^ 64 - 1)) % 2 ^ 64)

unfoldable pub page_rounds : ℕ → ℕ → ℕ
unfolding pgrounddown last_page
page_rounds va size = (last_page va size + 2 ^ 64 - pgrounddown va) % 2 ^ 64 / pgsize

unfoldable pub mappages : Caller → (me root va size pa perm : ℕ) → State → Result (ℤ × State)
unfolding map_from pgrounddown page_rounds
mappages c me root va size pa perm s =
    map_from c me root (page_rounds va size) (pgrounddown va) pa perm s
