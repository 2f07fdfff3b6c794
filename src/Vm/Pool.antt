-- ===== src/Vm/Pool.antt =====
-- kernel/vm.c and kernel/kalloc.c: free pages, of which new page tables are made.
use ev.Prelude.{
  ℕ, ◌≡◌, ◌≢◌, ◌⊎◌, inl, inr, Bool, true, false, List, [], ◌∷◌, Option, none, some, ◌==◌,
  if◌then◌else◌, ok, Result, ◌>>=◌, >>=-eq-ok, Bool-cases, upd, arith,
}
use ev.RecoveryLock.Locks.{Caller}
use ev.Kalloc
use ev.Kalloc.{kalloc, is_page}
use ev.Kalloc.Free.{IsFree, kalloc-IsFree}
use ev.MList.View.{contains}
use ev.Vm.{
  State, Words, px, has_v, table_pte, set_word, alloc_page, enter_trans, exit_trans, register_table,
}
use ev.Vm.Walk.{descend, duplicate}
use ev.Vm.Mirror.{
  Fresh, AllFresh, Quiet, Quiet-IsFree, register_table-Same, enter_trans-Quiet, exit_trans-Quiet,
}

-- No free page is a table of the process.
pub record Pool (m : ℕ → Words) (root : ℕ) (k : Kalloc.State) : Type 0 where
  pub free : IsFree k
  pub fresh : AllFresh m root k.trans.freelist

-- A page of `kalloc` that is not null.
pub record New (m : ℕ → Words) (root r : ℕ) (k : Kalloc.State) : Type 0 where
  pub fresh : Fresh m root r
  pub page : is_page k.kernel_end r ≡ true
  pub gone : contains r k.trans.freelist ≡ false

contains_head : (r : ℕ) (rs : List ℕ) → contains r (r ∷ rs) ≡ true
unfolding contains
contains_head r rs = ground arith

contains_tail : (x r : ℕ) (rs : List ℕ) → contains x rs ≡ true → contains x (r ∷ rs) ≡ true
unfolding contains
contains_tail x r rs h = ground arith

pub contains_ne : (x r : ℕ) (rs : List ℕ) → contains x rs ≡ true → contains r rs ≡ false → r ≢ x
contains_ne x r rs h g = λ e. let q : contains x rs ≡ false = rw e at g in ground arith

none_there : (x : ℕ) → contains x [] ≢ true
unfolding contains
none_there x = ground arith

pub kalloc-Pool :
    (c : Caller) (m : ℕ → Words) (root r : ℕ) (k k' : Kalloc.State)
    → Pool m root k
    → kalloc c k ≡ ok (r, k')
    → Pool m root k' × ((r ≡ 0) ⊎ New m root r k')
kalloc-Pool c m root r k k' w h =
    let (free, taken) = kalloc-IsFree c k k' r w.free h in
    elim taken [
      | inl (z, before, after) ↦
          (record { free = free; fresh = rw after (λ x i. absurd (none_there x i)) }, inl z)
      | inr (before, out, page) ↦
          let fresh : AllFresh m root (r ∷ k'.trans.freelist) = rw before at w.fresh in
          (
            record { free = free; fresh = λ x i. fresh x (contains_tail x r k'.trans.freelist i) },
            inr (record {
              fresh = fresh r (contains_head r k'.trans.freelist);
              page = page;
              gone = out;
            }),
          )
    ]

pub register_table-Pool :
    (c : Caller) (m : ℕ → Words) (root pid addr level : ℕ) (s t : State)
    → Pool m root s.pages
    → register_table c pid addr level s ≡ ok t
    → Pool m root t.pages
register_table-Pool c m root pid addr level s t w h =
    elim (register_table-Same c pid addr level s t h).1 [
      | inl e ↦ rw e w
      | inr (r, e) ↦ (kalloc-Pool c m root r s.pages t.pages w e).0
    ]

pub Quiet-Pool :
    (m : ℕ → Words) (root : ℕ) (s t : State) → Quiet s t → Pool m root s.pages → Pool m root t.pages
Quiet-Pool m root s t q w = record { free = Quiet-IsFree s t q w.free; fresh = rw q.1 w.fresh }

-- What one round of `walk` has done when it allocated a table: the page `r`, the state `s2` behind the
-- start of the transaction, and `s3` in front of its end.
pub record Grown (c : Caller) (me root table level va : ℕ) (s t : State) (r : ℕ) (s1 s2 s3 : State)
    : Type 0 where
  pub taken : alloc_page c s ≡ ok (r, s1)
  pub nonzero : r ≢ 0
  pub before : Quiet (record s1 { mem = upd s1.mem r (λ i. 0) }) s2
  pub added :
      duplicate c me root table level va r
        (record s2 { mem = set_word s2.mem table (px level va) (table_pte r) })
      ≡ ok s3
  pub behind : Quiet s3 t

abbrev pub Nothing : Caller → State → State → Type 0
Nothing c s t = (t ≡ s) ⊎ (alloc_page c s ≡ ok (0, t))

grown :
    (c : Caller) (me root table level va : ℕ) (s t : State) (o : Option ℕ) (r : ℕ) (s1 : State)
    → alloc_page c s ≡ ok (r, s1)
    → ◌≡◌ {A = Result (Option ℕ × State)}
        (if r == 0
          then ok (none, s1)
          else enter_trans me (record s1 { mem = upd s1.mem r (λ i. 0) }) >>= λ s2.
              duplicate c me root table level va r
                (record s2 { mem = set_word s2.mem table (px level va) (table_pte r) })
              >>= λ s3. exit_trans me s3 >>= λ s4. ok (some r, s4))
        (ok (o, t))
    → ((o ≡ none) × Nothing c s t)
      ⊎ ((r : ℕ) × (s1 : State) × (s2 : State) × (s3 : State) × (o ≡ some r)
          × Grown c me root table level va s t r s1 s2 s3)
grown c me root table level va s t o r s1 e k = elim (Bool-cases (r == 0)) [
  | inl z ↦
      let z0 : r ≡ 0 = ground arith in
      let p : ◌≡◌ {A = Result (Option ℕ × State)} (ok (none, s1)) (ok (o, t)) = rw z at k in
      let q : s1 ≡ t = ground arith in inl (ground arith, inr (rw (z0, q) at e))
  | inr z ↦
      let (s2, e2, k2) =
        >>=-eq-ok (enter_trans me (record s1 { mem = upd s1.mem r (λ i. 0) }))
          (λ s2.
            duplicate c me root table level va r
              (record s2 { mem = set_word s2.mem table (px level va) (table_pte r) })
            >>= λ s3. exit_trans me s3 >>= λ s4. ok (some r, s4))
          {t = (o, t)} (rw z at k) in
      let (s3, e3, k3) =
        >>=-eq-ok
          (duplicate c me root table level va r
            (record s2 { mem = set_word s2.mem table (px level va) (table_pte r) }))
          (λ s3. exit_trans me s3 >>= λ s4. ok (some r, s4)) {t = (o, t)} k2 in
      let (s4, e4, k4) = >>=-eq-ok (exit_trans me s3) (λ s4. ok (some r, s4)) {t = (o, t)} k3 in
      let last : s4 ≡ t = ground arith in
      inr (
        r,
        s1,
        s2,
        s3,
        ground arith,
        record {
          taken = e;
          nonzero = ground arith;
          before = enter_trans-Quiet me (record s1 { mem = upd s1.mem r (λ i. 0) }) s2 e2;
          added = e3;
          behind = exit_trans-Quiet me s3 t (rw last at e4);
        },
      )
]

pub descend-cases :
    (c : Caller) (me root : ℕ) (alloc : Bool) (table level va : ℕ) (s t : State) (o : Option ℕ)
    → has_v (s.mem table (px level va)) ≡ false
    → descend c me root alloc table level va s ≡ ok (o, t)
    → ((o ≡ none) × Nothing c s t)
      ⊎ ((r : ℕ) × (s1 : State) × (s2 : State) × (s3 : State) × (o ≡ some r)
          × Grown c me root table level va s t r s1 s2 s3)
unfolding descend
descend-cases c me root false table level va s t o v h = inl (ground arith)
descend-cases c me root true table level va s t o v h =
    let ((r, s1), e, k) =
      >>=-eq-ok (alloc_page c s)
        (λ (r, s1).
          if r == 0
          then ok (none, s1)
          else enter_trans me (record s1 { mem = upd s1.mem r (λ i. 0) }) >>= λ s2.
              duplicate c me root table level va r
                (record s2 { mem = set_word s2.mem table (px level va) (table_pte r) })
              >>= λ s3. exit_trans me s3 >>= λ s4. ok (some r, s4))
        {t = (o, t)} (rw v at h) in
    grown c me root table level va s t o r s1 e k
