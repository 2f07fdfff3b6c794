-- ===== src/Vm/Ptdup/Init.antt =====
-- kernel/ptdup.c: the duplicates of a new and empty page table.
use ev.Prelude.{
  ℕ, suc, ◌≡◌, ◌≢◌, refl, true, false, List, [], ◌∷◌, none, some, ◌==◌, set, ok, ◌>>=◌, >>=-eq-ok,
  Bool-cases, Option-cases, inl, inr, upd_self, arith,
}
use ev.RecoveryLock.Locks.{Caller}
use ev.MList.Pagetable.{Page}
use ev.Vm.{State, Words, Head, Dup, has_v, alloc_page}
use ev.Vm.Ptdup.{search_root, ptdup_init, zeroed, entry_list, put_head}
use ev.Vm.Mirror.{Mirror, Same, Same-Same, alloc_page-kalloc}

-- The first free entry becomes the first entry of the new page table.
search_root-set :
    (root : ℕ) (xs : List ℕ) (idx : ℕ)
    → root ≢ 0
    → search_root 0 xs ≡ some idx
    → search_root root xs ≡ none
    → search_root root (set xs idx root) ≡ some idx
unfolding search_root
search_root-set root [] idx nz h out = absurd (ground arith)
search_root-set root (x ∷ xs) idx nz h out = elim (Option-cases (search_root root xs)) [
  | inr (i, e) ↦ absurd (ground arith)
  | inl e ↦ elim (Bool-cases (x == 0)) [
    | inl z ↦ let p : idx ≡ 0 = ground arith in rw p ground arith
    | inr z ↦ elim (Option-cases (search_root 0 xs)) [
      | inl f ↦ absurd (ground arith)
      | inr (j, f) ↦
          let p : idx ≡ suc j = ground arith in
          let q = search_root-set root xs j nz f e in rw p ground arith
    ]
  ]
]

zeroed-Same :
    (c : Caller) (s t : State) (d : Dup) → zeroed c s ≡ ok (d, t) → Same s t × (d.word ≡ (λ i. 0))
unfolding zeroed
zeroed-Same c s t d h =
    let ((r, u), e, k) = >>=-eq-ok (alloc_page c s) _ h in
    let (same, _) = alloc_page-kalloc c s u r e in
    elim (Bool-cases (r == 0)) [
      | inl z ↦ absurd (ground arith)
      | inr z ↦
          let p : u ≡ t = ground arith in
          let q : d ≡ record { base = r; word = λ i. 0 } = ground arith in (rw p at same, rw q refl)
    ]

entry_list-Same :
    (c : Caller) (s t : State) (ps : List Page) → entry_list c s ≡ ok (ps, t) → Same s t
unfolding entry_list
entry_list-Same c s t ps h =
    let ((r, u), e, k) = >>=-eq-ok (alloc_page c s) _ h in
    let (same, _) = alloc_page-kalloc c s u r e in
    elim (Bool-cases (r == 0)) [
      | inl z ↦ absurd (ground arith)
      | inr z ↦ let p : u ≡ t = ground arith in rw p at same
    ]

-- What the head of a page table is made of.
abbrev head_of : Dup → Dup → List Page → List Page → Head
head_of l2 page ptds pted = record {
  l2 = l2;
  l1_base = page.base;
  l1 = λ i. record { base = 0; word = λ j. 0 };
  l0_ptds = ptds;
  l0_pted = pted;
}

init_steps :
    (c : Caller) (root idx : ℕ) (s t : State)
    → search_root 0 s.idx_ptdup ≡ some idx
    → root ≢ 0
    → ptdup_init c root s ≡ ok t
    → (l2 : Dup) × (page : Dup) × (ptds : List Page) × (pted : List Page) × (u : State) × Same
        (record s { idx_ptdup = set s.idx_ptdup idx root })
        u
      × (l2.word ≡ (λ i. 0))
      × (t ≡ put_head idx (head_of l2 page ptds pted) u)
unfolding ptdup_init
init_steps c root idx s t e nz h =
    let z : (root == 0) ≡ false = ground arith in
    let s0 = record s { idx_ptdup = set s.idx_ptdup idx root } in
    let ((l2, s1), e1, k1) =
      >>=-eq-ok (zeroed c s0)
        (λ (l2, s1). zeroed c s1 >>= λ (page, s2). entry_list c s2 >>= λ (ptds, s3).
          entry_list c s3 >>= λ (pted, s4). ok (put_head idx (head_of l2 page ptds pted) s4))
        {t = t} (rw (e, z, ptdup_init) at h) in
    let ((page, s2), e2, k2) =
      >>=-eq-ok (zeroed c s1)
        (λ (page, s2). entry_list c s2 >>= λ (ptds, s3).
          entry_list c s3 >>= λ (pted, s4). ok (put_head idx (head_of l2 page ptds pted) s4))
        {t = t} k1 in
    let ((ptds, s3), e3, k3) =
      >>=-eq-ok (entry_list c s2)
        (λ (ptds, s3).
          entry_list c s3 >>= λ (pted, s4). ok (put_head idx (head_of l2 page ptds pted) s4))
        {t = t} k2 in
    let ((pted, s4), e4, k4) =
      >>=-eq-ok (entry_list c s3) (λ (pted, s4). ok (put_head idx (head_of l2 page ptds pted) s4))
        {t = t} k3 in
    let (a1, words) = zeroed-Same c s0 s1 l2 e1 in
    let a2 = Same-Same s0 s1 s2 a1 (zeroed-Same c s1 s2 page e2).0 in
    let a3 = Same-Same s0 s2 s3 a2 (entry_list-Same c s2 s3 ptds e3) in
    let a4 = Same-Same s0 s3 s4 a3 (entry_list-Same c s3 s4 pted e4) in
    let done : t ≡ put_head idx (head_of l2 page ptds pted) s4 = ground arith in
    (l2, page, ptds, pted, s4, a4, words, done)

empty_entry : (m : ℕ → Words) (root j : ℕ) → ((i : ℕ) → m root i ≡ 0) → has_v (m root j) ≢ true
unfolding has_v
empty_entry m root j blank v = let b = blank j in ground arith

-- `ptdup_init` gives an empty page table duplicates that agree with it, at the first free index. The
-- page table is not null and has no duplicates yet.
pub ptdup_init-Mirror :
    (c : Caller) (root idx : ℕ) (s t : State)
    → search_root 0 s.idx_ptdup ≡ some idx
    → search_root root s.idx_ptdup ≡ none
    → root ≢ 0
    → ((i : ℕ) → s.mem root i ≡ 0)
    → ptdup_init c root s ≡ ok t
    → Mirror t idx root
unfolding put_head
ptdup_init-Mirror c root idx s t e out nz blank h =
    let (l2, page, ptds, pted, u, same, words, eq) = init_steps c root idx s t e nz h in
    let mem : t.mem ≡ s.mem = rw (eq, same.mem) refl in
    let head : t.heads idx ≡ head_of l2 page ptds pted =
      rw eq (upd_self u.heads idx (head_of l2 page ptds pted)) in
    let ids : t.idx_ptdup ≡ set s.idx_ptdup idx root = rw (eq, same.idx_ptdup) refl in
    record {
      tree = record {
        distinct = λ i j v p. absurd (empty_entry s.mem root j blank (rw mem at v));
        below = λ j v. absurd (empty_entry s.mem root j blank (rw mem at v));
      };
      at_idx = rw ids (search_root-set root s.idx_ptdup idx nz e out);
      level2 = λ i. rw (head, mem, words, blank i) refl;
      level1 = λ i v. absurd (empty_entry s.mem root i blank (rw mem at v));
    }
