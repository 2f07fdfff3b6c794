-- ===== src/MList/Refine.antt =====
-- kernel/mlist.c: `register_memobj`, `delete_memobj` and `search_mlist` do on the ring of nodes what
-- MList/View.antt says of the list of addresses.
use ev.Prelude.{
  ℕ, zero, suc, ◌<◌, ◌≡◌, ◌≢◌, refl, sym, ap, ◌⊎◌, inl, inr, Bool, true, false, List, [], ◌∷◌, some,
  if◌then◌else◌, arith, upd, Bool-cases, length, ok,
}
use ev.MList.{
  Mem, State, found, registered, find_before, remove, is_target, delete_memobj, find_object,
  search_mlist, insert,
}
use ev.MList.View
use ev.MList.View.{contains}
use ev.MList.Chain.{Chain, IsRing, addrs, Chain-frame, addrs-frame}

-- The first address that passes the test goes.
unfoldable pub delete_by : (ℕ → Bool) → List ℕ → List ℕ
delete_by test [] = []
delete_by test (x ∷ xs) = if test x then xs else x ∷ delete_by test xs

pub delete_by-delete : (a : ℕ) (xs : List ℕ) → delete_by (is_target a 0) xs ≡ View.delete a xs
unfolding delete_by is_target View.delete
delete_by-delete a [] = refl
delete_by-delete a (x ∷ xs) = ground (arith, delete_by-delete a xs)

-- What the loop of `delete_memobj` finds from `b` on, and the ring after it.
abbrev Found : (ℕ → Bool) → Mem → ℕ → ℕ → List ℕ → ℕ → Type 0
Found test h header b ns at =
    (ns' : List ℕ) × Chain (remove at h) header (remove at h b).next ns'
    × (addrs (remove at h) ns' ≡ delete_by test (addrs h ns))
    × ((remove at h b).addr ≡ (h b).addr)
    × ((n : ℕ) → contains n ns ≡ false → n ≢ b → remove at h n ≡ h n)
    × ((n : ℕ) → contains n ns ≡ false → contains n ns' ≡ false)

module _ (test : ℕ → Bool) (h : Mem) (header : ℕ) where
  hit-Found :
      (b d : ℕ) (ns : List ℕ)
      → d ≡ (h b).next
      → contains d ns ≡ false
      → Chain h header (h d).next ns
      → contains b (d ∷ ns) ≡ false
      → test (h d).addr ≡ true
      → Found test h header b (d ∷ ns) b
  unfolding contains remove upd delete_by
  hit-Found b d ns e out c away hit =
      let off : (n : ℕ) → contains n ns ≡ true → remove b h n ≡ h n = λ n i. ground arith in
      (
        ns,
        ground (arith, Chain-frame h (remove b h) header (h d).next ns c off),
        ground (arith, addrs-frame h (remove b h) ns off),
        ground arith,
        λ n i ne. ground arith,
        λ n i. ground arith,
      )

  miss-Found :
      (b d : ℕ) (ns : List ℕ) (at : ℕ)
      → d ≡ (h b).next
      → d ≢ header
      → contains d ns ≡ false
      → contains b (d ∷ ns) ≡ false
      → test (h d).addr ≡ false
      → Found test h header d ns at
      → Found test h header b (d ∷ ns) at
  unfolding contains delete_by
  miss-Found b d ns at e ne out away miss (ns', c, same, kept, frame, sub) =
      let stays : remove at h b ≡ h b = frame b (ground arith) (ground arith) in
      (
        d ∷ ns',
        rw stays (e, rw (← e) ne, sub d out, rw (← e) c),
        ground (arith, same, kept),
        ap (λ n. n.addr) stays,
        λ n i nb. frame n (ground arith) (ground arith),
        λ n i. ground (arith, sub n),
      )

  -- Enough rounds find the node before the first that passes the test, or the end of the ring.
  pub find_before-Found :
      (k b : ℕ) (ns : List ℕ)
      → Chain h header (h b).next ns
      → contains b ns ≡ false
      → length ns < k
      → ((at : ℕ) × (find_before k test h header b ≡ found at) × Found test h header b ns at)
        ⊎ ((find_before k test h header b ≡ registered)
            × (delete_by test (addrs h ns) ≡ addrs h ns))
  unfolding find_before delete_by contains
  find_before-Found zero b ns c away lt = absurd (omega arith)
  find_before-Found (suc k) b [] c away lt = inr (ground arith, refl)
  find_before-Found (suc k) b (d ∷ ns) (e, ne, out, c) away lt =
      elim (Bool-cases (test (h d).addr)) [
        | inl hit ↦ inl (b, ground arith, hit-Found b d ns e out (rw e c) away hit)
        | inr miss ↦ elim (find_before-Found k d ns (rw e c) out (omega arith)) [
          | inl (at, f, r) ↦
              inl (at, ground arith, miss-Found b d ns at e (ground arith) out away miss r)
          | inr (f, r) ↦ inr (ground arith, ground arith)
        ]
      ]

-- `delete_memobj` returns, and takes the first address that is the one given, or lies in the interval
-- from it, out of the list; without one it changes no address. It writes to no node outside the ring.
pub delete_memobj-delete_by :
    (k address header size : ℕ) (s : State) (ns : List ℕ)
    → IsRing s.nodes header ns
    → length ns < k
    → (t : State) × (ns' : List ℕ) × (delete_memobj k address header size s ≡ ok t)
      × IsRing t.nodes header ns'
      × (addrs t.nodes ns' ≡ delete_by (is_target address size) (addrs s.nodes ns))
      × ((n : ℕ) → contains n ns ≡ false → n ≢ header → t.nodes n ≡ s.nodes n)
unfolding delete_memobj
delete_memobj-delete_by k address header size s ns (c, away) lt =
    elim (find_before-Found (is_target address size) s.nodes header k header ns c away lt) [
      | inl (at, f, (ns', c', same, kept, frame, sub)) ↦ (
        record s { nodes = remove at s.nodes },
        ns',
        ground arith,
        (c', sub header away),
        same,
        frame,
      )
      | inr (f, same) ↦ (s, ns, ground arith, (c, away), sym same, λ n i ne. refl)
    ]

find_object_lem :
    (target size : ℕ) (h : Mem) (header k p : ℕ) (ns : List ℕ)
    → Chain h header p ns
    → length ns < k
    → find_object k target size h header p ≡ some (View.search_mlist target size (addrs h ns))
unfolding find_object View.search_mlist
find_object_lem target size h header zero p ns c lt = absurd (omega arith)
find_object_lem target size h header (suc k) p [] c lt = ground arith
find_object_lem target size h header (suc k) p (n ∷ ns) (e, ne, out, c) lt =
    ground (arith, find_object_lem target size h header k (h p).next ns c (omega arith))

-- `search_mlist` ends, with the first object of the list that covers the target.
pub search_mlist_lem :
    (k target header size : ℕ) (s : State) (ns : List ℕ)
    → IsRing s.nodes header ns
    → length ns < k
    → search_mlist k target header size s ≡ some (View.search_mlist target size (addrs s.nodes ns))
unfolding search_mlist
search_mlist_lem k target header size s ns (c, away) lt =
    find_object_lem target size s.nodes header k (s.nodes header).next ns c lt

-- A node outside the ring becomes its first.
pub insert-IsRing :
    (r address header : ℕ) (h : Mem) (ns : List ℕ)
    → IsRing h header ns
    → contains r ns ≡ false
    → r ≢ header
    → IsRing (insert r address header h) header (r ∷ ns)
      × (addrs (insert r address header h) (r ∷ ns) ≡ address ∷ addrs h ns)
unfolding insert upd contains
insert-IsRing r address header h ns (c, away) out ne =
    let off : (n : ℕ) → contains n ns ≡ true → insert r address header h n ≡ h n =
      λ n i. ground arith in
    let first : (insert r address header h header).next ≡ r = ground arith in
    (
      (
        (
          ground arith,
          rw first ne,
          out,
          ground (arith, Chain-frame h (insert r address header h) header (h header).next ns c off),
        ),
        ground arith,
      ),
      ground (arith, addrs-frame h (insert r address header h) ns off),
    )
