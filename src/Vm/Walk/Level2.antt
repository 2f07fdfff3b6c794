-- ===== src/Vm/Walk/Level2.antt =====
-- kernel/vm.c: a table of level 1 that `walk` adds under level 2.
use ev.Prelude.{
  ℕ, ◌<◌, ◌≡◌, ◌≢◌, refl, sym, ◌∙◌, inl, inr, Bool, true, false, none, some, ◌==◌, ltb,
  if◌then◌else◌, eq_or_ne, ok, panic, >>=-eq-ok, upd, arith,
}
use ev.RecoveryLock.Locks.{Caller}
use ev.Vm.{State, Words, entry_size, px, has_v, table_pte, set_word, alloc_page, register_table}
use ev.Vm.Ptdup.{search_root, find_table, put_head, add_l1, ptdup_create_l1}
use ev.Vm.Walk.{next_table, find_l0, duplicate}
use ev.Vm.Walk.Ready.{Ready, Keeps, Quiet-Ready, Pool-switch}
use ev.Vm.Mirror.{Same, Same-Same, pte2pa-table_pte, register_table-Same, alloc_page-kalloc}
use ev.Vm.Mirror.Switch.{
  Switched, HeadSwitched, Leads, find_l0-other, switch-Mirror, set_word-Switched,
}
use ev.Vm.Pool.{Pool, New, Grown, kalloc-Pool, register_table-Pool, Quiet-Pool}
use ev.Vm.Recovery.Level1.{find_table_unique}

abbrev zeros : Words
zeros = λ i. 0

pub px_bound : (level va : ℕ) → px level va < 512
unfolding px
px_bound level va = omega arith

-- A test that ends in `panic`.
pub unless_panic :
    (b : Bool) (t x : State) → (if b then panic else ok x) ≡ ok t → (b ≡ false) × (t ≡ x)
unless_panic true t x h = absurd (ground arith)
unless_panic false t x h = (refl, ground arith)

-- The call of `ptdup_create_l1` that finds the new entry.
create_l1-eq :
    (c : Caller) (root r content idx i : ℕ) (s t : State)
    → search_root root s.idx_ptdup ≡ some idx
    → (r == 0) ≡ false
    → find_table entry_size r (s.mem root) 0 ≡ some i
    → ptdup_create_l1 c root r content s ≡ ok t
    → (page : ℕ) × (u : State) × (page ≢ 0)
      × (alloc_page c s ≡ ok (page, u))
      × (t ≡ put_head idx (add_l1 i content (record { base = page; word = zeros }) (u.heads idx)) u)
unfolding ptdup_create_l1
create_l1-eq c root r content idx i s t e nz f h =
    let ((page, u), g, k) =
      >>=-eq-ok (alloc_page c s)
        (λ (r, t).
          if r == 0
          then panic
          else ok (
              put_head idx (add_l1 i content (record { base = r; word = λ j. 0 }) (t.heads idx)) t))
        {t = t} (rw (e, nz, f, ptdup_create_l1) at h) in
    let (nz', done) =
      unless_panic (page == 0) t
        (put_head idx (add_l1 i content (record { base = page; word = zeros }) (u.heads idx)) u)
        k in
    (page, u, ground arith, g, done)

put_head-Mirror-parts :
    (idx i r page : ℕ) (s : State)
    → page ≢ 0
    → HeadSwitched
        (s.heads idx)
        ((put_head idx
            (add_l1 i (table_pte r) (record { base = page; word = zeros }) (s.heads idx))
            s).heads
          idx)
        i
        r
        zeros
unfolding put_head add_l1 upd
put_head-Mirror-parts idx i r page s nz = record {
  l2_entry = ground arith;
  l2_others = λ j ne. ground arith;
  l1_base = ground arith;
  l1_word = ground arith;
  l1_others = λ j ne. ground arith;
}

module _ (c : Caller) (me idx root va r : ℕ) (s t s1 s2 s3 : State) (w : Ready s idx root)
    (empty : has_v (s.mem root (px 2 va)) ≡ false)
    (g : Grown c me root root 2 va s t r s1 s2 s3) where
  abbrev entered : State
  entered = record s2 { mem = set_word s2.mem root (px 2 va) (table_pte r) }

  same1 : Same s s1
  same1 = (alloc_page-kalloc c s s1 r g.taken).0

  taken : Pool s.mem root s1.pages × New s.mem root r s1.pages
  taken =
      let (p, either) =
        kalloc-Pool c s.mem root r s.pages s1.pages w.pool (alloc_page-kalloc c s s1 r g.taken).1 in
      elim either [ inl z ↦ absurd (g.nonzero z) | inr new ↦ (p, new) ]

  leads : Leads r
  leads = pte2pa-table_pte s1.pages.kernel_end r taken.1.page

  entered_mem : entered.mem ≡ set_word (upd s.mem r zeros) root (px 2 va) (table_pte r)
  entered_mem = rw (g.before.0.mem, same1.mem) refl

  entered-Switched : Switched s.mem entered.mem root (px 2 va) r zeros
  entered-Switched = rw entered_mem (
      set_word-Switched s.mem s.mem root (px 2 va) r zeros w.mirror.tree taken.1.fresh refl
        (λ j ne v. refl))

  entered_pool : Pool entered.mem root entered.pages
  entered_pool =
      Pool-switch s.mem entered.mem root (px 2 va) r zeros entered.pages
        (Quiet-Pool s.mem root (record s1 { mem = upd s1.mem r zeros }) s2 g.before taken.0)
        (rw g.before.1 taken.1.gone) leads entered-Switched

  entered_user : ltb 2 entered.pages.trans.nextpid ≡ true
  entered_user = rw (g.before.0.nextpid, same1.nextpid) w.user

  found : (m : ℕ → Words) → m ≡ entered.mem → find_table entry_size r (m root) 0 ≡ some (px 2 va)
  found m e = rw e (
      find_table_unique entry_size r (entered.mem root) 0 (px 2 va)
        (sym (rw entered-Switched.entry leads.1))
        (λ j f. elim (eq_or_ne j (px 2 va)) [
          | inl p ↦ p
          | inr ne ↦ absurd (taken.1.fresh.1 j (rw (entered-Switched.others j ne) at f))
        ])
        (omega arith) (omega (arith, px_bound 2 va)))

  -- The state in front of the call of `ptdup_create_l1`.
  registered :
      (u : State) × (register_table c me r 1 entered ≡ ok u)
      × (ptdup_create_l1 c root r (u.mem root (px 2 va)) u ≡ ok s3)
  unfolding duplicate
  registered =
      let (u, e, k) =
        >>=-eq-ok (register_table c me r 1 entered)
          (λ t. ptdup_create_l1 c root r (t.mem root (px 2 va)) t) {t = s3}
          (rw (entered_user, duplicate) at g.added) in
      (u, e, k)

  abbrev headed : ℕ → State → State
  headed page u =
      put_head idx
        (add_l1 (px 2 va) (table_pte r) (record { base = page; word = zeros }) (u.heads idx)) u

  -- What `ptdup_create_l1` leaves.
  created :
      (page : ℕ) × (u : State) × (page ≢ 0)
      × (s3 ≡ headed page u)
      × Same entered u
      × Pool entered.mem root u.pages
  created =
      let (u, e, k) = registered in
      let same = (register_table-Same c me r 1 entered u e).0 in
      let ids : u.idx_ptdup ≡ s.idx_ptdup =
        rw (same.idx_ptdup, g.before.0.idx_ptdup, same1.idx_ptdup) refl in
      let pool = register_table-Pool c entered.mem root me r 1 entered u entered_pool e in
      let content : u.mem root (px 2 va) ≡ table_pte r = rw same.mem entered-Switched.entry in
      let nz : (r == 0) ≡ false = ground (arith, g.nonzero) in
      let (page, u', nz', al, eq) =
        create_l1-eq c root r (table_pte r) idx (px 2 va) u s3 (rw ids w.mirror.at_idx) nz
          (found u.mem same.mem) (rw content at k) in
      let (same', ka) = alloc_page-kalloc c u u' page al in
      (
        page,
        u',
        nz',
        eq,
        Same-Same entered u u' same same',
        (kalloc-Pool c entered.mem root page u.pages u'.pages pool ka).0,
      )

  none_before : (va' : ℕ) → px 2 va' ≡ px 2 va → find_l0 s.mem root va' ≡ none
  unfolding find_l0 next_table
  none_before va' e = let v : has_v (s.mem root (px 2 va')) ≡ false = rw e empty in ground arith

  kept :
      (m : ℕ → Words)
      → Switched s.mem m root (px 2 va) r zeros
      → (va' x : ℕ) → find_l0 s.mem root va' ≡ some x
      → find_l0 m root va' ≡ some x
  kept m sw va' x h = elim (eq_or_ne (px 2 va') (px 2 va)) [
    | inl e ↦ let n = none_before va' e in absurd (ground arith)
    | inr ne ↦ find_l0-other s.mem m root (px 2 va) r zeros sw va' ne ∙ h
  ]

  next_after :
      (m : ℕ → Words) → Switched s.mem m root (px 2 va) r zeros → next_table m root 2 va ≡ some r
  unfolding next_table
  next_after m sw = rw (sw.entry, leads.0, leads.1) refl

  -- The page tables and the duplicates behind the round.
  pub level2-Ready : Ready t idx root × Keeps s t root × (next_table t.mem root 2 va ≡ some r)
  unfolding put_head
  level2-Ready =
      let (page, u, nz, eq, same, pool) = created in
      let i = px 2 va in
      let heads : u.heads idx ≡ s.heads idx = rw (same.heads, g.before.0.heads, same1.heads) refl in
      let mem : s3.mem ≡ entered.mem = rw (eq, same.mem) refl in
      let sw : Switched s.mem s3.mem root i r zeros = rw mem entered-Switched in
      let hs : HeadSwitched (s.heads idx) (s3.heads idx) i r zeros =
        rw (eq, ← heads) (put_head-Mirror-parts idx i r page u nz) in
      let ids : s3.idx_ptdup ≡ s.idx_ptdup =
        rw (eq, same.idx_ptdup, g.before.0.idx_ptdup, same1.idx_ptdup) refl in
      let ready : Ready s3 idx root = record {
        mirror = switch-Mirror s s3 idx root i r zeros w.mirror taken.1.fresh leads sw hs ids;
        pool = rw mem (rw eq pool);
        user = rw (eq, same.nextpid) entered_user;
      } in
      (
        Quiet-Ready s3 t idx root g.behind ready,
        λ va' x h. rw g.behind.0.mem (kept s3.mem sw va' x h),
        rw g.behind.0.mem (next_after s3.mem sw),
      )
