-- ===== src/Vm/Walk/Grow.antt =====
-- kernel/vm.c: `walk` on the page table of a user process.
use ev.Prelude.{
  ℕ, ◌≡◌, refl, sym, ◌∙◌, inl, inr, Bool, true, Option, none, some, leb, ok, Result, >>=-eq-ok,
  Bool-cases, arith,
}
use ev.RecoveryLock.Locks.{Caller}
use ev.Vm.{State, Words, maxva, px, pte2pa, has_v}
use ev.Vm.Mirror.{alloc_page-kalloc}
use ev.Vm.Pool.{Nothing, descend-cases, kalloc-Pool}
use ev.Vm.Walk.{next_table, find_l0, descend, walk}
use ev.Vm.Walk.Ready.{Ready, Keeps, Keeps-Keeps, Same-Mirror, Same-Keeps}
use ev.Vm.Walk.Level2.{level2-Ready}
use ev.Vm.Walk.Level1.{level1-Ready}

Nothing-Ready :
    (c : Caller) (idx root : ℕ) (s t : State)
    → Ready s idx root
    → Nothing c s t
    → Ready t idx root × Keeps s t root
Nothing-Ready c idx root s t w (inl e) = rw e (w, λ va x h. h)
Nothing-Ready c idx root s t w (inr e) =
    let (same, k) = alloc_page-kalloc c s t 0 e in
    (
      record {
        mirror = Same-Mirror s t idx root same w.mirror;
        pool = rw same.mem (kalloc-Pool c s.mem root 0 s.pages t.pages w.pool k).0;
        user = rw same.nextpid w.user;
      },
      Same-Keeps s t root same,
    )

-- The first round.
first_round :
    (c : Caller) (me idx root va : ℕ) (alloc : Bool) (s t : State) (o : Option ℕ)
    → Ready s idx root
    → descend c me root alloc root 2 va s ≡ ok (o, t)
    → Ready t idx root
      × Keeps s t root
      × ((table : ℕ) → o ≡ some table → next_table t.mem root 2 va ≡ some table)
unfolding descend next_table
first_round c me idx root va alloc s t o w h = elim (Bool-cases (has_v (s.mem root (px 2 va)))) [
  | inl v ↦
      let p : ◌≡◌ {A = Result (Option ℕ × State)} (ok (some (pte2pa (s.mem root (px 2 va))), s))
          (ok (o, t)) =
        rw v at h in
      let q : s ≡ t = ground arith in
      let r : o ≡ some (pte2pa (s.mem root (px 2 va))) = ground arith in
      rw (← q) (w, λ va x h. h, λ table e. rw v (sym r ∙ e))
  | inr v ↦ elim (descend-cases c me root alloc root 2 va s t o v h) [
    | inl (e, n) ↦
        let (w', k) = Nothing-Ready c idx root s t w n in (w', k, λ table f. absurd (ground arith))
    | inr (r, s1, s2, s3, e, g) ↦
        let (w', k, next) = level2-Ready c me idx root va r s t s1 s2 s3 w v g in
        (w', k, λ table f. let q : table ≡ r = ground arith in rw q next)
  ]
]

next_table-some :
    (m : ℕ → Words) (root va table : ℕ)
    → next_table m root 2 va ≡ some table
    → (has_v (m root (px 2 va)) ≡ true) × (table ≡ pte2pa (m root (px 2 va)))
unfolding next_table
next_table-some m root va table h = ground arith

find_l0-next :
    (m : ℕ → Words) (root va table : ℕ)
    → next_table m root 2 va ≡ some table
    → find_l0 m root va ≡ next_table m table 1 va
unfolding find_l0
find_l0-next m root va table n = rw (n, find_l0) refl

no_growth :
    (c : Caller) (me root va table : ℕ) (alloc : Bool) (s t : State) (o : Option ℕ)
    → has_v (s.mem table (px 1 va)) ≡ true
    → descend c me root alloc table 1 va s ≡ ok (o, t)
    → (s ≡ t) × (o ≡ next_table s.mem table 1 va)
unfolding descend next_table
no_growth c me root va table alloc s t o v h =
    let p : ◌≡◌ {A = Result (Option ℕ × State)} (ok (some (pte2pa (s.mem table (px 1 va))), s))
        (ok (o, t)) =
      rw v at h in
    (ground arith, rw v ground arith)

-- The second round, on the table that the first one gave.
second_round :
    (c : Caller) (me idx root va table : ℕ) (alloc : Bool) (s t : State) (o : Option ℕ)
    → Ready s idx root
    → next_table s.mem root 2 va ≡ some table
    → descend c me root alloc table 1 va s ≡ ok (o, t)
    → Ready t idx root
      × Keeps s t root
      × ((page : ℕ) → o ≡ some page → find_l0 t.mem root va ≡ some page)
second_round c me idx root va table alloc s t o w n h =
    let (valid, e) = next_table-some s.mem root va table n in
    elim (Bool-cases (has_v (s.mem table (px 1 va)))) [
      | inl v ↦
          let (q, r) = no_growth c me root va table alloc s t o v h in
          rw (← q) (w, λ va x h. h, λ page f. find_l0-next s.mem root va table n ∙ sym r ∙ f)
      | inr v ↦ elim (descend-cases c me root alloc table 1 va s t o v h) [
        | inl (f, nothing) ↦
            let (w', k) = Nothing-Ready c idx root s t w nothing in
            (w', k, λ page f'. absurd (ground arith))
        | inr (r, s1, s2, s3, f, g) ↦
            let (w', k, next) =
              level1-Ready c me idx root va r s t s1 s2 s3 w valid (rw e at v) (rw e at g) in
            (w', k, λ page f'. let q : page ≡ r = ground arith in rw q next)
      ]
    ]

walk_rounds :
    (c : Caller) (me idx root va : ℕ) (alloc : Bool) (s1 t : State) (o1 o : Option ℕ)
    → Ready s1 idx root
    → ((table : ℕ) → o1 ≡ some table → next_table s1.mem root 2 va ≡ some table)
    → ◌≡◌ {A = Result (Option ℕ × State)}
        (elim o1 [ none ↦ ok (none, s1) | some table ↦ descend c me root alloc table 1 va s1 ])
        (ok (o, t))
    → Ready t idx root
      × Keeps s1 t root
      × ((page : ℕ) → o ≡ some page → find_l0 t.mem root va ≡ some page)
walk_rounds c me idx root va alloc s1 t none o w n h =
    let q : s1 ≡ t = ground arith in rw (← q) (w, λ va x h. h, λ page f. absurd (ground arith))
walk_rounds c me idx root va alloc s1 t (some table) o w n h =
    second_round c me idx root va table alloc s1 t o w (n table refl) h

-- On the page table of a user process, whose duplicates agree with it and whose tables are not free,
-- `walk` keeps both, also where it allocates tables; every virtual address that led to a table of
-- level 0 still leads to it, and the page that `walk` gives is the one to which `va` leads from then
-- on.
pub walk-Ready :
    (c : Caller) (me idx root va : ℕ) (alloc : Bool) (s t : State) (o : Option ℕ)
    → Ready s idx root
    → walk c me root va alloc s ≡ ok (o, t)
    → Ready t idx root
      × Keeps s t root
      × ((page : ℕ) → o ≡ some page → find_l0 t.mem root va ≡ some page)
unfolding walk
walk-Ready c me idx root va alloc s t o w h = elim (Bool-cases (leb maxva va)) [
  | inl e ↦ absurd (ground arith)
  | inr e ↦
      let ((o1, s1), f, k) =
        >>=-eq-ok (descend c me root alloc root 2 va s)
          (λ (o, t). elim o [
            | none ↦ ok (none, t)
            | some table ↦ descend c me root alloc table 1 va t
          ])
          {t = (o, t)} (rw (e, walk) at h) in
      let (w1, k1, n) = first_round c me idx root va alloc s s1 o1 w f in
      let (w2, k2, p) = walk_rounds c me idx root va alloc s1 t o1 o w1 n k in
      (w2, Keeps-Keeps s s1 t root k1 k2, p)
]
