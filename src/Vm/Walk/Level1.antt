-- ===== src/Vm/Walk/Level1.antt =====
-- kernel/vm.c: a table of level 0 that `walk` adds under level 1.
use ev.Prelude.{
  ℕ, ◌≡◌, ◌≢◌, refl, sym, ap, ◌∙◌, inl, inr, Bool, true, false, none, some, ◌==◌, ltb,
  if◌then◌else◌, eq_or_ne, ok, panic, Result, >>=-eq-ok, upd, upd_self, upd_ne, arith,
}
use ev.RecoveryLock.Locks.{Caller}
use ev.Vm.{State, Words, Head, entry_size, px, pte2pa, has_v, table_pte, set_word, register_table}
use ev.Vm.Ptdup.{search_root, find_table, put_head, set_l1, ptdup_update}
use ev.Vm.Walk.{next_table, find_l0, duplicate}
use ev.Vm.Walk.Ready.{Ready, Keeps, Quiet-Ready}
use ev.Vm.Walk.Level2.{unless_panic, px_bound}
use ev.Vm.Mirror.{Mirror, Same, pte2pa-table_pte, register_table-Same, alloc_page-kalloc}
use ev.Vm.Mirror.Switch.{Leads, find_l0_eq}
use ev.Vm.Pool.{Pool, New, Grown, kalloc-Pool, register_table-Pool, Quiet-Pool}
use ev.Vm.Recovery.Level1.{find_table_unique}

-- The call of `ptdup_update` that finds the entry of the table.
update-eq :
    (root table content index idx i : ℕ) (s t : State)
    → search_root root s.idx_ptdup ≡ some idx
    → find_table entry_size table (s.heads idx).l2.word 0 ≡ some i
    → ptdup_update root table content index s ≡ ok t
    → t ≡ put_head idx (set_l1 i index content (s.heads idx)) s
unfolding ptdup_update
update-eq root table content index idx i s t e f h =
    let (nz, k) =
      unless_next (table == 0) t
        (if ((s.heads idx).l1 i).base == 0
          then panic
          else ok (put_head idx (set_l1 i index content (s.heads idx)) s))
        (rw (e, f, ptdup_update) at h) in
    (unless_panic (((s.heads idx).l1 i).base == 0) t
      (put_head idx (set_l1 i index content (s.heads idx)) s) k).1
  where
    unless_next :
        (b : Bool) (t : State) (x : Result State)
        → (if b then panic else x) ≡ ok t
        → (b ≡ false) × (x ≡ ok t)
    unless_next true t x h = absurd (ground arith)
    unless_next false t x h = (refl, h)

found_l0 :
    (m : ℕ → Words) (root va pte : ℕ)
    → has_v (m root (px 2 va)) ≡ true
    → m (pte2pa (m root (px 2 va))) (px 1 va) ≡ pte
    → has_v pte ≡ true
    → find_l0 m root va ≡ some (pte2pa pte)
unfolding find_l0 next_table
found_l0 m root va pte v e v' = ground arith

-- Both change the word `j` of the table of level 1 behind the entry `i`.
record Filled (s t : State) (idx root i j v : ℕ) : Type 0 where
  same_root : t.mem root ≡ s.mem root
  filled : t.mem (pte2pa (s.mem root i)) ≡ upd (s.mem (pte2pa (s.mem root i))) j v
  tables :
      (a : ℕ)
      → a ≢ i
      → has_v (s.mem root a) ≡ true
      → t.mem (pte2pa (s.mem root a)) ≡ s.mem (pte2pa (s.mem root a))
  head : t.heads idx ≡ set_l1 i j v (s.heads idx)
  ids : t.idx_ptdup ≡ s.idx_ptdup

upd_at : (m n : Words) (j v k : ℕ) → m k ≡ n k → upd m j v k ≡ upd n j v k
unfolding upd
upd_at m n j v k e = ground arith

set_l1-word :
    (i j v a : ℕ) (h : Head) (m n : Words)
    → a ≡ i
    → n ≡ upd m j v
    → ((h.l1 a).base ≢ 0) × ((k : ℕ) → (h.l1 a).word k ≡ m k)
    → (((set_l1 i j v h).l1 a).base ≢ 0) × ((k : ℕ) → ((set_l1 i j v h).l1 a).word k ≡ n k)
unfolding set_l1
set_l1-word i j v a h m n e f (b, g) =
    let at_i = upd_self h.l1 i (record (h.l1 i) { word = upd (h.l1 i).word j v }) in
    rw (e, f, at_i) (rw e at b, λ k. upd_at (h.l1 i).word m j v k (rw e at g k))

set_l1-other : (i j v a : ℕ) (h : Head) → a ≢ i → (set_l1 i j v h).l1 a ≡ h.l1 a
unfolding set_l1 upd
set_l1-other i j v a h ne = ground arith

Filled-Mirror :
    (s t : State) (idx root i j v : ℕ)
    → Mirror s idx root
    → has_v (s.mem root i) ≡ true
    → Filled s t idx root i j v
    → Mirror t idx root
unfolding set_l1
Filled-Mirror s t idx root i j v w valid f = record {
  tree = record { distinct = rw f.same_root w.tree.distinct; below = rw f.same_root w.tree.below };
  at_idx = rw f.ids w.at_idx;
  level2 = rw (f.head, f.same_root) w.level2;
  level1 = λ a u.
      let u' : has_v (s.mem root a) ≡ true = rw f.same_root at u in
      let old = w.level1 a u' in
      elim (eq_or_ne a i) [
        | inl e ↦
            rw (f.head, f.same_root)
              (set_l1-word i j v a (s.heads idx) (s.mem (pte2pa (s.mem root a)))
                (t.mem (pte2pa (s.mem root a))) e (rw (← e) at f.filled) old)
        | inr ne ↦
            rw (f.head, f.same_root, set_l1-other i j v a (s.heads idx) ne, f.tables a ne u') old
      ];
}

module _ (c : Caller) (me idx root va r : ℕ) (s t s1 s2 s3 : State) (w : Ready s idx root)
    (valid : has_v (s.mem root (px 2 va)) ≡ true)
    (empty : has_v (s.mem (pte2pa (s.mem root (px 2 va))) (px 1 va)) ≡ false)
    (g : Grown c me root (pte2pa (s.mem root (px 2 va))) 1 va s t r s1 s2 s3) where
  abbrev table : ℕ
  table = pte2pa (s.mem root (px 2 va))

  abbrev entered : State
  entered = record s2 { mem = set_word s2.mem table (px 1 va) (table_pte r) }

  same1 : Same s s1
  same1 = (alloc_page-kalloc c s s1 r g.taken).0

  taken : Pool s.mem root s1.pages × New s.mem root r s1.pages
  taken =
      let (p, either) =
        kalloc-Pool c s.mem root r s.pages s1.pages w.pool (alloc_page-kalloc c s s1 r g.taken).1 in
      elim either [ inl z ↦ absurd (g.nonzero z) | inr new ↦ (p, new) ]

  leads : Leads r
  leads = pte2pa-table_pte s1.pages.kernel_end r taken.1.page

  abbrev grown : ℕ → Words
  grown = set_word (upd s.mem r (λ i. 0)) table (px 1 va) (table_pte r)

  entered_mem : entered.mem ≡ grown
  entered_mem = rw (g.before.0.mem, same1.mem) refl

  grown-root : grown root ≡ s.mem root
  unfolding set_word
  grown-root =
      (upd_ne (upd s.mem r (λ i. 0)) table
          (upd (upd s.mem r (λ i. 0) table) (px 1 va) (table_pte r)) root
          (λ e. w.mirror.tree.below (px 2 va) valid (sym e))
        ∙ upd_ne s.mem r (λ i. 0) root (λ e. taken.1.fresh.0 (sym e)))

  grown-table : grown table ≡ upd (s.mem table) (px 1 va) (table_pte r)
  unfolding set_word
  grown-table =
      (upd_self (upd s.mem r (λ i. 0)) table
          (upd (upd s.mem r (λ i. 0) table) (px 1 va) (table_pte r))
        ∙ ap (λ p. upd p (px 1 va) (table_pte r))
            (upd_ne s.mem r (λ i. 0) table (taken.1.fresh.1 (px 2 va))))

  grown-tables :
      (a : ℕ)
      → a ≢ px 2 va
      → has_v (s.mem root a) ≡ true
      → grown (pte2pa (s.mem root a)) ≡ s.mem (pte2pa (s.mem root a))
  unfolding set_word
  grown-tables a ne v =
      (upd_ne (upd s.mem r (λ i. 0)) table
          (upd (upd s.mem r (λ i. 0) table) (px 1 va) (table_pte r)) (pte2pa (s.mem root a))
          (λ e. ne (w.mirror.tree.distinct a (px 2 va) valid e))
        ∙ upd_ne s.mem r (λ i. 0) (pte2pa (s.mem root a)) (taken.1.fresh.1 a))

  entered_pool : Pool entered.mem root entered.pages
  entered_pool =
      let p =
        Quiet-Pool s.mem root (record s1 { mem = upd s1.mem r (λ i. 0) }) s2 g.before taken.0 in
      record { free = p.free; fresh = rw (entered_mem, grown-root) p.fresh }

  entered_user : ltb 2 entered.pages.trans.nextpid ≡ true
  entered_user = rw (g.before.0.nextpid, same1.nextpid) w.user

  -- The state in front of the call of `ptdup_update`.
  registered :
      (u : State) × (register_table c me r 0 entered ≡ ok u)
      × (ptdup_update root table (u.mem table (px 1 va)) (px 1 va) u ≡ ok s3)
  unfolding duplicate
  registered =
      >>=-eq-ok (register_table c me r 0 entered)
        (λ t. ptdup_update root table (t.mem table (px 1 va)) (px 1 va) t) {t = s3}
        (rw (entered_user, duplicate) at g.added)

  found : (h : Head) → h ≡ s.heads idx → find_table entry_size table h.l2.word 0 ≡ some (px 2 va)
  found h e = rw e (
      find_table_unique entry_size table (s.heads idx).l2.word 0 (px 2 va)
        (rw (w.mirror.level2 (px 2 va)) refl)
        (λ j f. w.mirror.tree.distinct j (px 2 va) valid (rw (w.mirror.level2 j) at f))
        (omega arith) (omega (arith, px_bound 2 va)))

  -- What `ptdup_update` leaves.
  updated :
      (u : State) × Same entered u
      × Pool entered.mem root u.pages
      × (u.heads idx ≡ s.heads idx)
      × (s3 ≡ put_head idx (set_l1 (px 2 va) (px 1 va) (table_pte r) (u.heads idx)) u)
  updated =
      let (u, e, k) = registered in
      let same = (register_table-Same c me r 0 entered u e).0 in
      let ids : u.idx_ptdup ≡ s.idx_ptdup =
        rw (same.idx_ptdup, g.before.0.idx_ptdup, same1.idx_ptdup) refl in
      let heads : u.heads idx ≡ s.heads idx = rw (same.heads, g.before.0.heads, same1.heads) refl in
      let content : u.mem table (px 1 va) ≡ table_pte r =
        rw (same.mem, entered_mem, grown-table) (upd_self (s.mem table) (px 1 va) (table_pte r)) in
      (
        u,
        same,
        register_table-Pool c entered.mem root me r 0 entered u entered_pool e,
        heads,
        update-eq root table (table_pte r) (px 1 va) idx (px 2 va) u s3 (rw ids w.mirror.at_idx)
            (found (u.heads idx) heads) (rw content at k),
      )

  filled : Filled s s3 idx root (px 2 va) (px 1 va) (table_pte r)
  unfolding put_head
  filled =
      let (u, same, pool, heads, eq) = updated in
      let mem : s3.mem ≡ grown = rw (eq, same.mem) entered_mem in
      record {
        same_root = rw mem grown-root;
        filled = rw mem grown-table;
        tables = λ a ne v. rw mem (grown-tables a ne v);
        head = rw eq (
            upd_self u.heads idx (set_l1 (px 2 va) (px 1 va) (table_pte r) (u.heads idx))
            ∙ ap (set_l1 (px 2 va) (px 1 va) (table_pte r)) heads);
        ids = rw (eq, same.idx_ptdup, g.before.0.idx_ptdup, same1.idx_ptdup) refl;
      }

  none_before : (va' : ℕ) → px 2 va' ≡ px 2 va → px 1 va' ≡ px 1 va → find_l0 s.mem root va' ≡ none
  unfolding find_l0 next_table
  none_before va' e f =
      let v : has_v (s.mem (pte2pa (s.mem root (px 2 va'))) (px 1 va')) ≡ false = rw (e, f) empty in
      let v' : has_v (s.mem root (px 2 va')) ≡ true = rw e valid in ground arith

  kept : (va' x : ℕ) → find_l0 s.mem root va' ≡ some x → find_l0 s3.mem root va' ≡ some x
  kept va' x h =
      let e : s3.mem root (px 2 va') ≡ s.mem root (px 2 va') =
        ap (λ p. p (px 2 va')) filled.same_root in
      let same_way : (has_v (s.mem root (px 2 va')) ≡ true
          → s3.mem (pte2pa (s3.mem root (px 2 va'))) (px 1 va')
            ≡ s.mem (pte2pa (s.mem root (px 2 va'))) (px 1 va')) =
        λ v. rw e (elim (eq_or_ne (px 2 va') (px 2 va)) [
          | inr ne ↦ ap (λ p. p (px 1 va')) (filled.tables (px 2 va') ne v)
          | inl p ↦ elim (eq_or_ne (px 1 va') (px 1 va)) [
            | inl q ↦ let n = none_before va' p q in absurd (ground arith)
            | inr ne ↦
                rw (p, filled.filled) (upd_ne (s.mem table) (px 1 va) (table_pte r) (px 1 va') ne)
          ]
        ]) in
      find_l0_eq s.mem s3.mem root root va' (ap has_v e) same_way ∙ h

  found_after : find_l0 s3.mem root va ≡ some r
  found_after =
      let e : s3.mem root (px 2 va) ≡ s.mem root (px 2 va) =
        ap (λ p. p (px 2 va)) filled.same_root in
      let f : s3.mem (pte2pa (s3.mem root (px 2 va))) (px 1 va) ≡ table_pte r =
        rw (e, filled.filled) (upd_self (s.mem table) (px 1 va) (table_pte r)) in
      let v : has_v (s3.mem root (px 2 va)) ≡ true = rw e valid in
      found_l0 s3.mem root va (table_pte r) v f leads.0 ∙ ap some leads.1

  -- The page tables and the duplicates behind the round.
  pub level1-Ready : Ready t idx root × Keeps s t root × (find_l0 t.mem root va ≡ some r)
  unfolding put_head
  level1-Ready =
      let (u, same, pool, heads, eq) = updated in
      let mem : s3.mem ≡ entered.mem = rw (eq, same.mem) refl in
      let ready : Ready s3 idx root = record {
        mirror =
            Filled-Mirror s s3 idx root (px 2 va) (px 1 va) (table_pte r) w.mirror valid filled;
        pool = rw mem (rw eq pool);
        user = rw (eq, same.nextpid) entered_user;
      } in
      (
        Quiet-Ready s3 t idx root g.behind ready,
        λ va' x h. rw g.behind.0.mem (kept va' x h),
        rw g.behind.0.mem found_after,
      )
