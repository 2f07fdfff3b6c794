-- ===== src/MList.antt =====
-- kernel/mlist.c: the M-Lists. An M-List is a ring of nodes in pages of their own; a node that is not
-- in the ring holds EMPTY, or what `kalloc` fills a page with. A pointer is its address, and the
-- memory gives the `struct mlist_node` at an address. The last node of a page (offset 0xff0) only
-- leads to the next page.
pub mod View
pub mod Chain
pub mod Refine
pub mod Scan
pub mod Pagetable
mod Tests
use ev.Prelude.{
  ℕ, zero, suc, ◌+◌, ◌%◌, ◌≡◌, Bool, true, false, ◌&&◌, ◌||◌, List, [], ◌∷◌, Option, none, some,
  ◌==◌, leb, ltb, if◌then◌else◌, Result, ok, panic, fault, asleep, ◌>>=◌, upd,
}

-- `struct mlist_node`.
pub record Node : Type 0 where
  pub addr : ℕ
  pub next : ℕ

abbrev pub Mem : Type 0
Mem = ℕ → Node

abbrev pub empty : ℕ
empty = 0x101010101010101

abbrev pub fresh : ℕ
fresh = 0x505050505050505

unfoldable pub is_empty : ℕ → Bool
is_empty a = a == empty || a == fresh

-- The nodes, `kmem->freelist` as the list of its pages, and `mlist.run_list`, 0 before `mlistinit`.
pub record State : Type 0 where
  pub nodes : Mem
  pub freelist : List ℕ
  pub run_list : ℕ

-- Where a loop over nodes ends; `lost` when the rounds did not suffice.
pub data Slot : Type 0 where
  found last_entry : ℕ → Slot
  registered lost : Slot

abbrev pub node_size : ℕ
node_size = 16

unfoldable pub is_last : ℕ → Bool
is_last r = r % 0x1000 == 0xff0

-- The first test of a round of `register_memobj`.
unfoldable pub follow : Mem → ℕ → ℕ
follow h r = if (h r).addr == 0 then (h r).next else r

-- The loop of `register_memobj`.
unfoldable pub find_slot : ℕ → Mem → ℕ → ℕ → Slot
unfolding follow is_last is_empty
find_slot zero h address r = lost
find_slot (suc k) h address r =
    let q = follow h r in
    let rest = find_slot k h address (q + node_size) in
    if is_last q
    then last_entry q
    else if is_empty (h q).addr
    then found q
    else if (h q).addr == address
    then registered
    else rest

-- The end of `register_memobj`.
unfoldable pub insert : ℕ → ℕ → ℕ → Mem → Mem
unfolding upd
insert r address header h =
    let g = upd h r (record { addr = address; next = (h header).next }) in
    upd g header (record (g header) { next = r })

-- The loops of `delete_memobj`, for both kinds of test: the node before the one to delete.
unfoldable pub find_before : ℕ → (ℕ → Bool) → Mem → ℕ → ℕ → Slot
find_before zero test h header b = lost
find_before (suc k) test h header b =
    let d = (h b).next in
    let rest = find_before k test h header d in
    if d == header then registered else if test (h d).addr then found b else rest

-- The node behind `b` leaves the ring and becomes empty.
unfoldable pub remove : ℕ → Mem → Mem
unfolding upd
remove b h =
    let d = (h b).next in
    upd (upd h b (record (h b) { next = (h d).next })) d (record { addr = empty; next = empty })

-- The test of `delete_memobj`: the address itself, or an address in the closed interval from it.
unfoldable pub is_target : ℕ → ℕ → ℕ → Bool
is_target address size a =
    if size == 0 then a == address else leb address a && leb a (address + size)

unfoldable pub delete_memobj : ℕ → ℕ → ℕ → ℕ → State → Result State
unfolding find_before remove is_target
delete_memobj k address header size s =
    elim (find_before k (is_target address size) s.nodes header header) [
      | found b ↦ ok (record s { nodes = remove b s.nodes })
      | registered ↦ ok s
      | last_entry b ↦ fault
      | lost ↦ asleep
    ]

-- `my_kalloc` for one page. With an empty list and no page to avoid it reads through 0.
unfoldable pub take_page : ℕ → List ℕ → Result (ℕ × List ℕ)
take_page avoid [] = if avoid == 0 then fault else ok (0, [])
take_page avoid (r ∷ []) = if r == avoid then ok (0, r ∷ []) else ok (r, [])
take_page avoid (r ∷ q ∷ rs) = if r == avoid then ok (q, r ∷ rs) else ok (r, q ∷ rs)

unfoldable pub my_kalloc : ℕ → ℕ → State → Result (ℕ × State)
unfolding take_page delete_memobj
my_kalloc k avoid s = take_page avoid s.freelist >>= λ (r, rs).
    if r == 0 || s.run_list == 0
    then ok (r, record s { freelist = rs })
    else delete_memobj k r s.run_list 0 (record s { freelist = rs }) >>= λ t. ok (r, t)

-- A new page behind the last entry `r`; its first node is the one to use.
unfoldable pub link_page : ℕ → ℕ → Mem → Mem
unfolding upd
link_page r page h =
    upd (upd h page (record (h page) { addr = empty })) r (record { addr = 0; next = page })

unfoldable pub register_memobj : ℕ → ℕ → ℕ → State → Result State
unfolding find_slot insert my_kalloc link_page
register_memobj k address header s = elim (find_slot k s.nodes address (header + node_size)) [
  | found r ↦ ok (record s { nodes = insert r address header s.nodes })
  | registered ↦ ok s
  | last_entry r ↦ my_kalloc k address s >>= λ (page, t).
      if page == 0
      then fault
      else ok (record t { nodes = insert page address header (link_page r page t.nodes) })
  | lost ↦ asleep
]

-- The loop of `search_mlist` of kernel/mlist_tracker.c.
unfoldable pub find_object : ℕ → ℕ → ℕ → Mem → ℕ → ℕ → Option (Option ℕ)
find_object zero target size h header n = none
find_object (suc k) target size h header n =
    let rest = find_object k target size h header (h n).next in
    if n == header
    then some none
    else if leb (h n).addr target && ltb target ((h n).addr + size)
    then some (some (h n).addr)
    else rest

-- `some none` is the result 0.
unfoldable pub search_mlist : ℕ → ℕ → ℕ → ℕ → State → Option (Option ℕ)
unfolding find_object
search_mlist k target header size s = find_object k target size s.nodes header (s.nodes header).next
