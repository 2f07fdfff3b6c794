-- ===== src/MList/Tests.antt =====
-- Runs of kernel/mlist.c and kernel/mlist_pagetable.c on one page of nodes, and the theorems there.
use ev.Prelude.{
  ℕ, ◌%◌, ◌≡◌, ◌≢◌, ◌⊎◌, inl, inr, refl, Bool, true, false, ◌&&◌, List, [], ◌∷◌, ◌==◌, leb,
  if◌then◌else◌, arith, ok,
}
use ev.MList.{
  Mem, State, empty, found, is_empty, is_last, follow, find_slot, register_memobj, delete_memobj,
  is_target,
}
use ev.MList.View.{contains}
use ev.MList.Chain.{IsRing, addrs}
use ev.MList.Refine.{delete_by, delete_memobj-delete_by}
use ev.MList.Scan.{IsFilled, register_memobj-IsRing}
use ev.MList.Pagetable.{pack, node_pa}

-- The header at 0x10000; its first two nodes hold 500 and 700, newest first.
abbrev nodes : Mem
nodes r =
    if r == 0x10000
    then record { addr = 1; next = 0x10020 }
    else if r == 0x10020
    then record { addr = 700; next = 0x10010 }
    else if r == 0x10010
    then record { addr = 500; next = 0x10000 }
    else record { addr = empty; next = empty }

abbrev two : State
two = record { nodes = nodes; freelist = []; run_list = 0 }

abbrev ring : List ℕ
ring = 0x10020 ∷ 0x10010 ∷ []

ring-IsRing : IsRing nodes 0x10000 ring
unfolding contains
ring-IsRing = ((refl, omega arith, refl, (refl, omega arith, refl, refl)), refl)

delete_memobj-delete_by_example :
    (t : State) × (ns' : List ℕ) × (delete_memobj 3 500 0x10000 0 two ≡ ok t)
    × IsRing t.nodes 0x10000 ns'
    × (addrs t.nodes ns' ≡ 700 ∷ [])
    × ((n : ℕ) → contains n ring ≡ false → n ≢ 0x10000 → t.nodes n ≡ nodes n)
unfolding delete_by is_target
delete_memobj-delete_by_example =
    delete_memobj-delete_by 3 500 0x10000 0 two ring ring-IsRing (omega arith)

abbrev own : ℕ → Bool
own r = leb 0x10010 r && leb r 0x10ff0 && r % 16 == 0

two-IsFilled : IsFilled own nodes ring
unfolding is_last is_empty contains
two-IsFilled = record {
  steps = λ r o e. ground arith;
  leads = λ r o e. ground arith;
  used = λ r o inner e. ground arith;
  nonempty = λ r i. ground arith;
}

register_memobj-IsRing_example :
    (t : State) × (ns' : List ℕ) × (register_memobj 5000 900 0x10000 two ≡ ok t)
    × IsRing t.nodes 0x10000 ns'
    × IsFilled own t.nodes ns'
    × ((addrs t.nodes ns' ≡ 900 ∷ 700 ∷ 500 ∷ [])
        ⊎ ((t ≡ two) × (ns' ≡ ring) × (contains 900 (700 ∷ 500 ∷ []) ≡ true)))
unfolding is_empty is_last follow
register_memobj-IsRing_example =
    register_memobj-IsRing own 5000 900 0x10000 two ring (0x10010 ∷ 0x10020 ∷ 0x10030 ∷ [])
      two-IsFilled ring-IsRing refl refl refl (omega arith)
      (refl, refl, (refl, refl, (refl, refl, tt))) (inr (inr (inl refl))) (omega arith)

-- An empty node in front of an address hides it: 500 is registered a second time after 700 has been
-- deleted and 500 put behind it.
abbrev hole : Mem
hole r =
    if r == 0x10000
    then record { addr = 1; next = 0x10020 }
    else if r == 0x10020
    then record { addr = 500; next = 0x10000 }
    else record { addr = empty; next = empty }

registered_twice : find_slot 5000 hole 500 0x10010 ≡ found 0x10010
unfolding find_slot follow is_last is_empty
registered_twice = refl

-- A pid of 1024 runs into the address.
pid_overflow : node_pa (pack 1024 0x2000 0) ≡ 0x3000
unfolding pack node_pa
pid_overflow = refl
