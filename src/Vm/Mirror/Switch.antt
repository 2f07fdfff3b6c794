-- ===== src/Vm/Mirror/Switch.antt =====
-- A new table of level 1 in the page tables and in their duplicates: when both change alike.
use ev.Prelude.{
  ℕ, ◌≡◌, ◌≢◌, refl, sym, ap, ◌∙◌, inl, inr, true, Bool-cases, none, some, if◌then◌else◌, eq_or_ne,
  upd, upd_self, upd_ne, arith,
}
use ev.Vm.{State, Words, Head, px, pte2pa, has_v, table_pte, set_word}
use ev.Vm.Walk.{next_table, find_l0}
use ev.Vm.Mirror.{Tree, Mirror, Fresh}

-- The way to level 0 is fixed by the entry of level 2 and what stands in the table behind it.
pub find_l0_eq :
    (m m' : ℕ → Words) (root root' va : ℕ)
    → has_v (m' root' (px 2 va)) ≡ has_v (m root (px 2 va))
    → (has_v (m root (px 2 va)) ≡ true
        → m' (pte2pa (m' root' (px 2 va))) (px 1 va) ≡ m (pte2pa (m root (px 2 va))) (px 1 va))
    → find_l0 m' root' va ≡ find_l0 m root va
unfolding find_l0 next_table
find_l0_eq m m' root root' va e f = elim (Bool-cases (has_v (m root (px 2 va)))) [
  | inr h ↦ ground arith
  | inl h ↦ let g = f h in ground arith
]

-- The entry `i` of `root` leads to the page `new`, which holds `words`; all other ways are kept.
pub record Switched (m m' : ℕ → Words) (root i new : ℕ) (words : Words) : Type 0 where
  pub entry : m' root i ≡ table_pte new
  pub others : (j : ℕ) → j ≢ i → m' root j ≡ m root j
  pub table : m' new ≡ words
  pub tables :
      (j : ℕ) → j ≢ i → has_v (m root j) ≡ true → m' (pte2pa (m root j)) ≡ m (pte2pa (m root j))

pub record HeadSwitched (h h' : Head) (i new : ℕ) (words : Words) : Type 0 where
  pub l2_entry : h'.l2.word i ≡ table_pte new
  pub l2_others : (j : ℕ) → j ≢ i → h'.l2.word j ≡ h.l2.word j
  pub l1_base : (h'.l1 i).base ≢ 0
  pub l1_word : (h'.l1 i).word ≡ words
  pub l1_others : (j : ℕ) → j ≢ i → h'.l1 j ≡ h.l1 j

abbrev pub Leads : ℕ → Type 0
Leads new = (has_v (table_pte new) ≡ true) × (pte2pa (table_pte new) ≡ new)

module _ (m m' : ℕ → Words) (root i new : ℕ) (words : Words)
    (w : Switched m m' root i new words) where
  pub find_l0-other : (va : ℕ) → px 2 va ≢ i → find_l0 m' root va ≡ find_l0 m root va
  find_l0-other va ne =
      let e = w.others (px 2 va) ne in
      find_l0_eq m m' root root va (ap has_v e)
        (λ v. rw e (ap (λ p. p (px 1 va)) (w.tables (px 2 va) ne v)))

  next_table-new : (va : ℕ) → Leads new → px 2 va ≡ i → next_table m' root 2 va ≡ some new
  unfolding next_table
  next_table-new va (v, back) e =
      let a : m' root (px 2 va) ≡ table_pte new = rw e w.entry in rw (a, v, back) refl

  next_l0 :
      (va : ℕ)
      → next_table m' new 1 va
        ≡ (if has_v (words (px 1 va)) then some (pte2pa (words (px 1 va))) else none)
  unfolding next_table
  next_l0 va = rw w.table refl

  pub find_l0-new :
      (va : ℕ)
      → Leads new
      → px 2 va ≡ i
      → find_l0 m' root va
        ≡ (if has_v (words (px 1 va)) then some (pte2pa (words (px 1 va))) else none)
  unfolding find_l0
  find_l0-new va leads e = rw (next_table-new va leads e, find_l0) (next_l0 va)

  switch-distinct :
      Tree m root
      → Fresh m root new
      → Leads new
      → (a b : ℕ) → has_v (m' root b) ≡ true
      → pte2pa (m' root a) ≡ pte2pa (m' root b)
      → a ≡ b
  switch-distinct t fresh (v, back) a b u e = elim (eq_or_ne a i) [
    | inl p ↦ elim (eq_or_ne b i) [
      | inl q ↦ p ∙ sym q
      | inr ne ↦ absurd (fresh.1 b (sym (rw (p, w.entry, back, w.others b ne) at e)))
    ]
    | inr ne ↦ elim (eq_or_ne b i) [
      | inl q ↦ absurd (fresh.1 a (rw (q, w.entry, back, w.others a ne) at e))
      | inr ne' ↦
          t.distinct a b (rw (w.others b ne') at u) (rw (w.others a ne, w.others b ne') at e)
    ]
  ]

  switch-below :
      Tree m root
      → Fresh m root new
      → Leads new
      → (b : ℕ) → has_v (m' root b) ≡ true
      → pte2pa (m' root b) ≢ root
  switch-below t fresh (v, back) b u = elim (eq_or_ne b i) [
    | inl q ↦ rw (q, w.entry, back) fresh.0
    | inr ne ↦ let e = w.others b ne in rw e (t.below b (rw e at u))
  ]

  pub switch-Tree : Tree m root → Fresh m root new → Leads new → Tree m' root
  switch-Tree t fresh leads = record {
    distinct = switch-distinct t fresh leads;
    below = switch-below t fresh leads;
  }

pub switch-Mirror :
    (s t : State) (idx root i new : ℕ) (words : Words)
    → Mirror s idx root
    → Fresh s.mem root new
    → Leads new
    → Switched s.mem t.mem root i new words
    → HeadSwitched (s.heads idx) (t.heads idx) i new words
    → t.idx_ptdup ≡ s.idx_ptdup
    → Mirror t idx root
switch-Mirror s t idx root i new words w fresh leads k h ids = record {
  tree = switch-Tree s.mem t.mem root i new words k w.tree fresh leads;
  at_idx = rw ids w.at_idx;
  level2 = λ j. elim (eq_or_ne j i) [
    | inl e ↦ rw (e, h.l2_entry, k.entry) refl
    | inr ne ↦ rw (h.l2_others j ne, k.others j ne) (w.level2 j)
  ];
  level1 = λ j v. elim (eq_or_ne j i) [
    | inl e ↦ rw e (h.l1_base, rw (k.entry, leads.1, k.table, h.l1_word) (λ x. refl))
    | inr ne ↦
        let e = k.others j ne in
        let u : has_v (s.mem root j) ≡ true = rw e at v in
        let (b, f) = w.level1 j u in rw (h.l1_others j ne, e, k.tables j ne u) (b, f)
  ];
}

-- How the code makes such a change: from a memory that agrees with the old one on the tables.
pub set_word-Switched :
    (m m0 : ℕ → Words) (root i new : ℕ) (words : Words)
    → Tree m root
    → Fresh m root new
    → m0 root ≡ m root
    → ((j : ℕ) → j ≢ i → has_v (m root j) ≡ true → m0 (pte2pa (m root j)) ≡ m (pte2pa (m root j)))
    → Switched m (set_word (upd m0 new words) root i (table_pte new)) root i new words
unfolding set_word
set_word-Switched m m0 root i new words t fresh same kept =
    let n = upd m0 new words in
    let r : n root ≡ m root = upd_ne m0 new words root (λ e. fresh.0 (sym e)) ∙ same in
    let at_root : upd n root (upd (n root) i (table_pte new)) root
        ≡ upd (n root) i (table_pte new) =
      upd_self n root (upd (n root) i (table_pte new)) in
    record {
      entry = ap (λ p. p i) at_root ∙ upd_self (n root) i (table_pte new);
      others =
          λ j ne. ap (λ p. p j) at_root ∙ upd_ne (n root) i (table_pte new) j ne ∙ ap (λ p. p j) r;
      table = upd_ne n root (upd (n root) i (table_pte new)) new fresh.0 ∙ upd_self m0 new words;
      tables = λ j ne v.
          upd_ne n root (upd (n root) i (table_pte new)) (pte2pa (m root j)) (t.below j v)
          ∙ upd_ne m0 new words (pte2pa (m root j)) (fresh.1 j)
          ∙ kept j ne v;
    }
