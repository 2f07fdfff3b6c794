-- ===== src/Icache/Unique.antt =====
-- kernel/fs.c: how many entries in use an inode of the disk has.
use ev.Prelude.{
  ℕ, ◌+◌, ◌≡◌, ◌≢◌, sym, ap, ◌∙◌, ◌⊎◌, inl, inr, Bool, true, false, List, [], ◌∷◌, Option, none,
  some, ◌==◌, ok, >>=-eq-ok, upd, arith, Bool-cases,
}
use ev.MList.View.{contains}
use ev.RecoveryLock.Index.{Kind}
use ev.RecoveryLock.Locks.{
  Caller, enter_recovery_critical_section_nodes, exit_recovery_critical_section_nodes,
}
use ev.Icache.{Inode, State, is_cached, remember, idup, recycle_inode, iget_empty, iget_from, iget}

-- How `iget` ends: with an entry of the inode, whose count goes up; or without one, with a free entry.
abbrev Hit : (dev inum i : ℕ) → (ℕ → Inode) → List ℕ → (ℕ → Inode) → Type 0
Hit dev inum i h is g =
    (contains i is ≡ true)
    × (is_cached dev inum (h i) ≡ true)
    × (g ≡ upd h i (record (h i) { ref = (h i).ref + 1 }))

abbrev Miss : (dev inum i : ℕ) → Option ℕ → (ℕ → Inode) → List ℕ → (ℕ → Inode) → Type 0
Miss dev inum i empty h is g =
    ((a : ℕ) → contains a is ≡ true → is_cached dev inum (h a) ≡ false)
    × ((empty ≡ some i) ⊎ ((contains i is ≡ true) × ((h i).ref ≡ 0)))
    × (g ≡ upd h i (record { dev = dev; inum = inum; ref = 1; valid = false }))

abbrev Ended : (dev inum i : ℕ) → Option ℕ → List ℕ → State → State → Type 0
Ended dev inum i empty is s t =
    (t.table ≡ s.table)
    × (Hit dev inum i s.inodes is t.inodes ⊎ Miss dev inum i empty s.inodes is t.inodes)

remembered :
    (empty : Option ℕ) (i k : ℕ) (s : State)
    → remember empty i s ≡ some k
    → (empty ≡ some k) ⊎ ((i ≡ k) × ((s.inodes k).ref ≡ 0))
unfolding remember
remembered none i k s e = elim (Bool-cases ((s.inodes i).ref == 0)) [
  | inl z ↦ let q : i ≡ k = ground arith in inr (q, rw (← q) (ground arith))
  | inr z ↦ absurd (ground arith)
]
remembered (some x) i k s e = inl e

iget_empty_lem :
    (c : Caller) (dev inum i : ℕ) (empty : Option ℕ) (s t : State)
    → iget_empty c dev inum empty s ≡ ok (i, t)
    → Ended dev inum i empty [] s t
unfolding iget_empty recycle_inode contains
iget_empty_lem c dev inum i none s t h =
    let (l, e, k) = >>=-eq-ok (enter_recovery_critical_section_nodes c Kind.inode 0 s.locks) _ h in
    absurd (ground arith)
iget_empty_lem c dev inum i (some x) s t h =
    let (l, e, k) = >>=-eq-ok (enter_recovery_critical_section_nodes c Kind.inode x s.locks) _ h in
    let q : x ≡ i = ground arith in
    (ground arith, inr (λ a m. absurd (ground arith), inl (ap some q), ground arith))

-- One entry further back in the table.
step_back :
    (dev inum i x : ℕ) (empty : Option ℕ) (is : List ℕ) (s t : State)
    → is_cached dev inum (s.inodes x) ≡ false
    → Ended dev inum i (remember empty x s) is s t
    → Ended dev inum i empty (x ∷ is) s t
unfolding contains
step_back dev inum i x empty is s t out (e, inl (m, y, g)) = (e, inl (ground arith, y, g))
step_back dev inum i x empty is s t out (e, inr (n, from, g)) = (
  e,
  inr (
    λ a m. elim (Bool-cases (x == a)) [
      | inl b ↦ let q : x ≡ a = ground arith in rw (← q) out
      | inr b ↦ n a (ground arith)
    ],
    elim from [
      | inr (m, z) ↦ inr (ground arith, z)
      | inl r ↦ elim (remembered empty x i s r) [
        | inl q ↦ inl q
        | inr (q, z) ↦ inr (ground arith, z)
      ]
    ],
    g,
  ),
)

iget_from_lem :
    (c : Caller) (dev inum i : ℕ) (empty : Option ℕ) (is : List ℕ) (s t : State)
    → iget_from c dev inum empty is s ≡ ok (i, t)
    → Ended dev inum i empty is s t
unfolding iget_from idup contains
iget_from_lem c dev inum i empty [] s t h = iget_empty_lem c dev inum i empty s t h
iget_from_lem c dev inum i empty (x ∷ is) s t h =
    let (l, e, k) = >>=-eq-ok (enter_recovery_critical_section_nodes c Kind.inode x s.locks) _ h in
    elim (Bool-cases (is_cached dev inum (s.inodes x))) [
      | inl y ↦
          let q : x ≡ i = ground arith in
          (ground arith, inl (ground arith, rw (← q) y, ground arith))
      | inr y ↦
          let (l', e', k') =
            >>=-eq-ok (exit_recovery_critical_section_nodes c Kind.inode x l)
              (λ l'. iget_from c dev inum (remember empty x s) is (record s { locks = l' }))
              {t = (i, t)} (rw y at k) in
          step_back dev inum i x empty is s t y
            (iget_from_lem c dev inum i (remember empty x s) is (record s { locks = l' }) t k')
    ]

abbrev pub InCache : State → ℕ → ℕ → ℕ → Type 0
InCache s dev inum a = (contains a s.table ≡ true) × (is_cached dev inum (s.inodes a) ≡ true)

abbrev pub IsUnique : State → Type 0
IsUnique s = (dev inum a b : ℕ) → InCache s dev inum a → InCache s dev inum b → a ≡ b

hit-is_cached :
    (h : ℕ → Inode) (dev inum i d n a : ℕ)
    → is_cached dev inum (h i) ≡ true
    → is_cached d n (upd h i (record (h i) { ref = (h i).ref + 1 }) a) ≡ true
    → is_cached d n (h a) ≡ true
unfolding upd is_cached
hit-is_cached h dev inum i d n a y e = ground arith

miss-is_cached :
    (h : ℕ → Inode) (dev inum i d n a : ℕ)
    → is_cached d n (upd h i (record { dev = dev; inum = inum; ref = 1; valid = false }) a) ≡ true
    → ((a ≡ i) × (d ≡ dev) × (n ≡ inum)) ⊎ ((a ≢ i) × (is_cached d n (h a) ≡ true))
unfolding upd is_cached
miss-is_cached h dev inum i d n a e = elim (Bool-cases (a == i)) [
  | inl b ↦ inl (ground arith, ground arith, ground arith)
  | inr b ↦ inr (ground arith, ground arith)
]

Ended-IsUnique :
    (dev inum i : ℕ) (s t : State) → Ended dev inum i none s.table s t → IsUnique s → IsUnique t
Ended-IsUnique dev inum i s t (e, inl (m, y, g)) u d n a b (ma, ca) (mb, cb) =
    u d n a b (rw e at ma, hit-is_cached s.inodes dev inum i d n a y (rw g at ca))
      (rw e at mb, hit-is_cached s.inodes dev inum i d n b y (rw g at cb))
Ended-IsUnique dev inum i s t (e, inr (m, from, g)) u d n a b (ma, ca) (mb, cb) =
    elim (miss-is_cached s.inodes dev inum i d n a (rw g at ca)) [
      | inl (qa, da, na) ↦ elim (miss-is_cached s.inodes dev inum i d n b (rw g at cb)) [
        | inl (qb, db, nb) ↦ qa ∙ sym qb
        | inr (qb, cb') ↦
            absurd (clash (is_cached dev inum (s.inodes b)) (m b (rw e at mb)) (rw (da, na) at cb'))
      ]
      | inr (qa, ca') ↦ elim (miss-is_cached s.inodes dev inum i d n b (rw g at cb)) [
        | inl (qb, db, nb) ↦
            absurd (clash (is_cached dev inum (s.inodes a)) (m a (rw e at ma)) (rw (db, nb) at ca'))
        | inr (qb, cb') ↦ u d n a b (rw e at ma, ca') (rw e at mb, cb')
      ]
    ]
  where
    clash : (x : Bool) → x ≡ false → x ≢ true
    clash x e f = ground arith

given-InCache :
    (dev inum i : ℕ) (s t : State)
    → contains i s.table ≡ true
    → Ended dev inum i none s.table s t
    → InCache t dev inum i
unfolding upd is_cached
given-InCache dev inum i s t l (e, inl (m, y, g)) = (rw e m, rw g (ground arith))
given-InCache dev inum i s t l (e, inr (m, from, g)) = (rw e l, rw g (ground arith))

Ended-listed :
    (dev inum i : ℕ) (s t : State) → Ended dev inum i none s.table s t → contains i s.table ≡ true
Ended-listed dev inum i s t (e, inl (m, y, g)) = m
Ended-listed dev inum i s t (e, inr (m, inl q, g)) = absurd (ground arith)
Ended-listed dev inum i s t (e, inr (m, inr (l, z), g)) = l

-- `iget` gives an entry in use of the inode, and after it, too, no inode of the disk has two entries
-- in use.
pub iget-IsUnique :
    (c : Caller) (dev inum i : ℕ) (s t : State)
    → IsUnique s
    → iget c dev inum s ≡ ok (i, t)
    → IsUnique t × InCache t dev inum i
unfolding iget
iget-IsUnique c dev inum i s t u h =
    let w = iget_from_lem c dev inum i none s.table s t h in
    (
      Ended-IsUnique dev inum i s t w u,
      given-InCache dev inum i s t (Ended-listed dev inum i s t w) w,
    )
