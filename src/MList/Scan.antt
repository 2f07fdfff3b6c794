-- ===== src/MList/Scan.antt =====
-- kernel/mlist.c: the search of `register_memobj` for an empty node, and what it registers.
use ev.Prelude.{
  ℕ, zero, suc, ◌+◌, ◌<◌, ◌≡◌, ◌≢◌, refl, ◌⊎◌, inl, inr, Bool, true, false, List, [], ◌∷◌, ◌==◌,
  arith, upd, Bool-cases, ok, ◌≤◌, length,
}
use ev.MList.{
  Mem, State, found, last_entry, registered, lost, follow, find_slot, is_last, is_empty, node_size,
  insert, register_memobj,
}
use ev.MList.View.{contains}
use ev.MList.Chain.{IsRing, addrs}
use ev.MList.Refine.{insert-IsRing}

-- The nodes of an M-List's pages, as a test: the loop of `register_memobj` stays among them, those
-- that are not empty are in the ring, and those in the ring are not empty.
pub record IsFilled (own : ℕ → Bool) (h : Mem) (ns : List ℕ) : Type 0 where
  pub steps : (r : ℕ) → own r ≡ true → is_last r ≡ false → own (r + node_size) ≡ true
  pub leads : (r : ℕ) → own r ≡ true → (h r).addr ≡ 0 → own (h r).next ≡ true
  pub used :
      (r : ℕ)
      → own r ≡ true
      → is_last r ≡ false
      → is_empty (h r).addr ≡ false
      → contains r ns ≡ true
  pub nonempty : (r : ℕ) → contains r ns ≡ true → is_empty (h r).addr ≡ false

contains-addrs :
    (h : Mem) (r : ℕ) (ns : List ℕ) → contains r ns ≡ true → contains (h r).addr (addrs h ns) ≡ true
unfolding contains
contains-addrs h r [] i = absurd (ground arith)
contains-addrs h r (n ∷ ns) i = elim (Bool-cases (n == r)) [
  | inl e ↦ let e' : n ≡ r = ground arith in rw e' ground arith
  | inr e ↦ ground (arith, contains-addrs h r ns)
]

follow-own :
    (own : ℕ → Bool) (h : Mem) (ns : List ℕ) (w : IsFilled own h ns) (r : ℕ)
    → own r ≡ true
    → own (follow h r) ≡ true
unfolding follow
follow-own own h ns w r o = elim (Bool-cases ((h r).addr == 0)) [
  | inl e ↦ rw e (w.leads r o (ground arith))
  | inr e ↦ rw e o
]

-- The slot that the loop finds is an empty node of the pages; it ends early only at an entry with
-- the address.
pub find_slot-cases :
    (own : ℕ → Bool) (h : Mem) (ns : List ℕ) (w : IsFilled own h ns) (k address r : ℕ)
    → own r ≡ true
    → (find_slot k h address r ≡ lost)
      ⊎ (((find_slot k h address r ≡ registered) × (contains address (addrs h ns) ≡ true))
          ⊎ (((q : ℕ) × (find_slot k h address r ≡ found q)
                × (own q ≡ true)
                × (is_empty (h q).addr ≡ true))
              ⊎ ((q : ℕ) × (find_slot k h address r ≡ last_entry q)
                  × (own q ≡ true)
                  × (is_last q ≡ true))))
unfolding find_slot
find_slot-cases own h ns w zero address r o = inl refl
find_slot-cases own h ns w (suc k) address r o =
    let q = follow h r in
    let oq : own q ≡ true = follow-own own h ns w r o in
    elim (Bool-cases (is_last q)) [
      | inl last ↦ inr (inr (inr (q, ground arith, oq, last)))
      | inr inner ↦ elim (Bool-cases (is_empty (h q).addr)) [
        | inl e ↦ inr (inr (inl (q, ground arith, oq, e)))
        | inr full ↦ elim (Bool-cases ((h q).addr == address)) [
          | inl same ↦
              let e : (h q).addr ≡ address = ground arith in
              inr (inl (ground arith, rw e at (contains-addrs h q ns (w.used q oq inner full))))
          | inr other ↦
              let e : find_slot (suc k) h address r ≡ find_slot k h address (q + node_size) =
                ground arith in
              rw e (find_slot-cases own h ns w k address (q + node_size) (w.steps q oq inner))
        ]
      ]
    ]

-- The search of `register_memobj` ends: on a measure of the nodes of the pages that falls with each
-- round, as the distance to the end of the pages does, as many rounds as it says suffice.
pub find_slot-ne-lost :
    (own : ℕ → Bool) (h : Mem) (ns : List ℕ) (w : IsFilled own h ns) (rank : ℕ → ℕ)
    (address k r : ℕ)
    → ((q : ℕ)
        → own q ≡ true
        → is_last (follow h q) ≡ false
        → rank (follow h q + node_size) < rank q)
    → own r ≡ true
    → rank r < k
    → find_slot k h address r ≢ lost
unfolding find_slot
find_slot-ne-lost own h ns w rank address zero r falls o lt = absurd (omega arith)
find_slot-ne-lost own h ns w rank address (suc k) r falls o lt =
    elim (Bool-cases (is_last (follow h r))) [
      | inl e ↦ rw e (λ p. cc)
      | inr e ↦
          let less = falls r o e in
          let next = w.steps (follow h r) (follow-own own h ns w r o) e in
          ground (
            arith,
            find_slot-ne-lost own h ns w rank address k (follow h r + node_size) falls next
                (omega arith),
          )
    ]

insert-IsFilled :
    (own : ℕ → Bool) (h : Mem) (ns : List ℕ) (w : IsFilled own h ns) (q address header : ℕ)
    → own q ≡ true
    → own header ≡ false
    → contains header ns ≡ false
    → is_empty address ≡ false
    → address ≢ 0
    → IsFilled own (insert q address header h) (q ∷ ns)
unfolding insert upd contains
insert-IsFilled own h ns w q address header oq out away full nz = record {
  steps = w.steps;
  leads = λ r o e. ground (arith, w.leads r o);
  used = λ r o inner e. ground (arith, w.used r o inner);
  nonempty = λ r i. ground (arith, w.nonempty r);
}

-- The nodes that the loop of `register_memobj` looks at from `r` on while none of them ends it: the
-- nodes of the M-List's pages in their order, without the last one of each page.
abbrev pub Trail : Mem → ℕ → List ℕ → Type 0
Trail h r [] = Unit
Trail h r (q ∷ qs) = (follow h r ≡ q) × (is_last q ≡ false) × Trail h (q + node_size) qs

-- There is an empty node among them.
abbrev pub HasRoom : Mem → List ℕ → Type 0
HasRoom h [] = ⊥
HasRoom h (q ∷ qs) = (is_empty (h q).addr ≡ true) ⊎ HasRoom h qs

-- The search that ends within the trail neither runs out of rounds nor reaches the end of the pages.
find_slot-ends :
    (h : Mem) (k address r : ℕ) (qs : List ℕ)
    → Trail h r qs
    → HasRoom h qs
    → length qs ≤ k
    → (find_slot k h address r ≢ lost) × ((q : ℕ) → find_slot k h address r ≢ last_entry q)
unfolding find_slot
find_slot-ends h k address r [] t room le = absurd room
find_slot-ends h zero address r (q ∷ qs) t room le = absurd (omega arith)
find_slot-ends h (suc k) address r (q ∷ qs) (e, inner, t) room le =
    elim (Bool-cases (is_empty (h q).addr)) [
      | inl free ↦ rw (e, inner, free) (λ p. cc, λ x p. cc)
      | inr full ↦ elim (Bool-cases ((h q).addr == address)) [
        | inl same ↦ rw (e, inner, full, same) (λ p. cc, λ x p. cc)
        | inr other ↦
            rw (e, inner, full, other)
              (find_slot-ends h k address (q + node_size) qs t (later room full) (omega arith))
      ]
    ]
  where
    later :
        ((is_empty (h q).addr ≡ true) ⊎ HasRoom h qs) → is_empty (h q).addr ≡ false → HasRoom h qs
    later (inl free) full = absurd (ground arith)
    later (inr room) full = room

-- With an empty node among those that the loop looks at in the M-List's pages, and as many rounds as there
-- are such nodes, registering an address that is neither 0 nor the one of an empty node returns, keeps the
-- ring and the pages, and either puts the address in front of the list or leaves a list that has it
-- already as it is. The ring and the pages were well-formed, and the header is not one of the nodes.
pub register_memobj-IsRing :
    (own : ℕ → Bool) (k address header : ℕ) (s : State) (ns qs : List ℕ)
    (w : IsFilled own s.nodes ns)
    → IsRing s.nodes header ns
    → own (header + node_size) ≡ true
    → own header ≡ false
    → is_empty address ≡ false
    → address ≢ 0
    → Trail s.nodes (header + node_size) qs
    → HasRoom s.nodes qs
    → length qs ≤ k
    → (t : State) × (ns' : List ℕ) × (register_memobj k address header s ≡ ok t)
      × IsRing t.nodes header ns'
      × IsFilled own t.nodes ns'
      × ((addrs t.nodes ns' ≡ address ∷ addrs s.nodes ns)
          ⊎ ((t ≡ s) × (ns' ≡ ns) × (contains address (addrs s.nodes ns) ≡ true)))
unfolding register_memobj
register_memobj-IsRing own k address header s ns qs w ring first out full nz trail free le =
    let (nl, room) = find_slot-ends s.nodes k address (header + node_size) qs trail free le in
    elim (find_slot-cases own s.nodes ns w k address (header + node_size) first) [
      | inl e ↦ absurd (nl e)
      | inr (inl (e, there)) ↦ (s, ns, ground arith, ring, w, inr (refl, refl, there))
      | inr (inr (inl (q, e, oq, free))) ↦
          let outside : contains q ns ≡ false = not_used q free in
          let ne : q ≢ header = ground arith in
          let (ring', same) = insert-IsRing q address header s.nodes ns ring outside ne in
          (
            record s { nodes = insert q address header s.nodes },
            q ∷ ns,
            ground arith,
            ring',
            insert-IsFilled own s.nodes ns w q address header oq out ring.1 full nz,
            inl same,
          )
      | inr (inr (inr (q, e, oq, last))) ↦ absurd (room q e)
    ]
  where
    not_used : (q : ℕ) → is_empty (s.nodes q).addr ≡ true → contains q ns ≡ false
    not_used q free = elim (Bool-cases (contains q ns)) [
      | inl i ↦ ground (arith, w.nonempty q i)
      | inr e ↦ e
    ]
