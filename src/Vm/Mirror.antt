-- ===== src/Vm/Mirror.antt =====
-- kernel/ptdup.c: when the duplicates of level 2 and level 1 agree with the page tables, and what leaves
-- them as they are.
pub mod Switch
use ev.Prelude.{
  ℕ, zero, suc, ◌+◌, ◌*◌, ◌/◌, ◌%◌, ◌^◌, ◌<◌, ◌≤◌, ◌≡◌, ◌≢◌, refl, sym, ap, ◌∙◌, ◌⊎◌, inl, inr,
  Bool, true, false, List, [], ◌∷◌, Option, none, some, ◌==◌, if◌then◌else◌, ok, panic, Result,
  >>=-eq-ok, Bool-cases, Option-cases, arith,
}
use ev.Prelude.Or.{mod_pte}
use ev.RecoveryLock.Locks.{Caller}
use ev.Trans
use ev.Trans.{enter_trans_pagetable, exit_trans_pagetable, index, info_at, put}
use ev.Prelude.Int.{ℤ, succ, pred, is_neg, is_pos}
use ev.RecoveryLock.Index.{rl_flag_kmem}
use ev.RecoveryLock.Locks.{enter_recovery_critical_section, exit_recovery_critical_section}
use ev.Kalloc
use ev.Kalloc.{kalloc, is_page, take_page}
use ev.Kalloc.Free.{IsFree, Taken, kalloc-IsFree}
use ev.MList.View.{contains}
use ev.MList.Pagetable.{Page, is_free, pack, replace_pages, register_ptb_mlist}
use ev.Vm.{
  State, Words, Head, px, pte2pa, pa2pte, has_v, table_pte, alloc_page, enter_trans, exit_trans,
  register_table,
}
use ev.Vm.Ptdup.{search_root}
use Prim.Native.Nat.{bit_or}

-- The page tables under `root`: the tables of level 1 are different pages.
pub record Tree (m : ℕ → Words) (root : ℕ) : Type 0 where
  pub distinct : (i j : ℕ) → has_v (m root j) ≡ true → pte2pa (m root i) ≡ pte2pa (m root j) → i ≡ j
  pub below : (j : ℕ) → has_v (m root j) ≡ true → pte2pa (m root j) ≢ root

-- The head at `idx` is that of `root` and holds the same words.
pub record Mirror (s : State) (idx root : ℕ) : Type 0 where
  pub tree : Tree s.mem root
  pub at_idx : search_root root s.idx_ptdup ≡ some idx
  pub level2 : (i : ℕ) → (s.heads idx).l2.word i ≡ s.mem root i
  pub level1 :
      (i : ℕ)
      → has_v (s.mem root i) ≡ true
      → (((s.heads idx).l1 i).base ≢ 0)
        × ((j : ℕ) → ((s.heads idx).l1 i).word j ≡ s.mem (pte2pa (s.mem root i)) j)

-- The entry that is made for the page of a table leads to that page.
pub pte2pa-table_pte :
    (kernel_end r : ℕ)
    → is_page kernel_end r ≡ true
    → (has_v (table_pte r) ≡ true) × (pte2pa (table_pte r) ≡ r)
unfolding is_page has_v pte2pa table_pte pa2pte
pte2pa-table_pte kernel_end r page =
    let c : r / 4096 * 1024 % 2 ^ 64 ≡ r / 4096 * 1024 = ground arith in
    let e : bit_or (r / 4096 * 1024 % 2 ^ 64) 1 ≡ r / 4096 * 1024 + 1 =
      rw c (mod_pte (r / 4096) 1 (omega arith)) in
    ground (arith, e)

-- Pages that can become tables without clashing with one.
abbrev pub Fresh : (ℕ → Words) → ℕ → ℕ → Type 0
Fresh m root r = (r ≢ root) × ((i : ℕ) → pte2pa (m root i) ≢ r)

abbrev pub AllFresh : (ℕ → Words) → ℕ → List ℕ → Type 0
AllFresh m root xs = (r : ℕ) → contains r xs ≡ true → Fresh m root r

-- What stays when only pages and counters change.
pub record Same (s t : State) : Type 0 where
  pub mem : t.mem ≡ s.mem
  pub idx_ptdup : t.idx_ptdup ≡ s.idx_ptdup
  pub heads : t.heads ≡ s.heads
  pub nextpid : t.pages.trans.nextpid ≡ s.pages.trans.nextpid

pub Same-Same : (s t u : State) → Same s t → Same t u → Same s u
Same-Same s t u a b = record {
  mem = b.mem ∙ a.mem;
  idx_ptdup = b.idx_ptdup ∙ a.idx_ptdup;
  heads = b.heads ∙ a.heads;
  nextpid = b.nextpid ∙ a.nextpid;
}

take_page-nextpid : (has : Bool) (t : Trans.State) → (take_page has t).1.nextpid ≡ t.nextpid
unfolding take_page
take_page-nextpid has t = ground arith

kalloc-nextpid :
    (c : Caller) (s t : Kalloc.State) (r : ℕ)
    → kalloc c s ≡ ok (r, t)
    → t.trans.nextpid ≡ s.trans.nextpid
unfolding kalloc
kalloc-nextpid c s t r h =
    let (l, f, h1) = >>=-eq-ok (enter_recovery_critical_section c rl_flag_kmem 0 s.locks) _ h in
    let (l', m, h2) = >>=-eq-ok (exit_recovery_critical_section c rl_flag_kmem 0 l) _ h1 in
    ground (arith, take_page-nextpid s.has_list s.trans)

pub alloc_page-kalloc :
    (c : Caller) (s t : State) (r : ℕ)
    → alloc_page c s ≡ ok (r, t)
    → Same s t × (kalloc c s.pages ≡ ok (r, t.pages))
unfolding alloc_page
alloc_page-kalloc c s t r h =
    let ((r', k), e, h1) = >>=-eq-ok (kalloc c s.pages) _ h in
    let n = kalloc-nextpid c s.pages k r' e in ground (arith, n)

-- Only the counters of the transactions change.
abbrev pub Quiet : State → State → Type 0
Quiet s t =
    Same s t
    × (t.pages.trans.freelist ≡ s.pages.trans.freelist)
    × (t.pages.trans.run_list ≡ s.pages.trans.run_list)
    × (t.pages.has_list ≡ s.pages.has_list)
    × (t.pages.kernel_end ≡ s.pages.kernel_end)

pub Quiet-IsFree : (s t : State) → Quiet s t → IsFree s.pages → IsFree t.pages
Quiet-IsFree s t (same, free, run, has, end_) w = rw (free, run, has, end_) w

abbrev Lists : Trans.State → Trans.State → Type 0
Lists s t = (t.nextpid ≡ s.nextpid) × (t.freelist ≡ s.freelist) × (t.run_list ≡ s.run_list)

enter-Lists : (me : ℕ) (s t : Trans.State) → enter_trans_pagetable me s ≡ ok t → Lists s t
unfolding enter_trans_pagetable
enter-Lists me s t h = elim (Option-cases (index me s)) [
  | inl e ↦ ground arith
  | inr (j, e) ↦
      let ((i, x), f, k) =
        >>=-eq-ok (info_at (some j) s)
          (λ (i, x).
            if is_neg x.pagetable_ntrans
            then panic
            else ok (put s i (record x { pagetable_ntrans = succ x.pagetable_ntrans })))
          {t = t} (ground arith) in
      ground arith
]

exit-Lists : (me : ℕ) (s t : Trans.State) → exit_trans_pagetable me s ≡ ok t → Lists s t
unfolding exit_trans_pagetable
exit-Lists me s t h = elim (Option-cases (index me s)) [
  | inl e ↦ ground arith
  | inr (j, e) ↦
      let ((i, x), f, k) =
        >>=-eq-ok (info_at (some j) s)
          (λ (i, x).
            if is_pos x.pagetable_ntrans
            then ok (put s i (record x { pagetable_ntrans = pred x.pagetable_ntrans }))
            else panic)
          {t = t} (ground arith) in
      ground arith
]

pub enter_trans-Quiet : (me : ℕ) (s t : State) → enter_trans me s ≡ ok t → Quiet s t
unfolding enter_trans
enter_trans-Quiet me s t h =
    let (u, e, k) = >>=-eq-ok (enter_trans_pagetable me s.pages.trans) _ h in
    ground (arith, enter-Lists me s.pages.trans u e)

pub exit_trans-Quiet : (me : ℕ) (s t : State) → exit_trans me s ≡ ok t → Quiet s t
unfolding exit_trans
exit_trans-Quiet me s t h =
    let (u, e, k) = >>=-eq-ok (exit_trans_pagetable me s.pages.trans) _ h in
    ground (arith, exit-Lists me s.pages.trans u e)

-- A page was taken from the Free-List or not.
pub register_table-Same :
    (c : Caller) (pid addr level : ℕ) (s t : State)
    → register_table c pid addr level s ≡ ok t
    → Same s t × ((t.pages ≡ s.pages) ⊎ ((r : ℕ) × (kalloc c s.pages ≡ ok (r, t.pages))))
unfolding register_table
register_table-Same c pid addr level s t h =
    elim (Option-cases (replace_pages is_free (pack pid addr level) s.ptb_list)) [
      | inr (qs, e) ↦
          let e2 : t ≡ record s { ptb_list = qs } = ground arith in
          rw e2 (record { mem = refl; idx_ptdup = refl; heads = refl; nextpid = refl }, inl refl)
      | inl e ↦
          let ((page, u), f, k) =
            >>=-eq-ok (alloc_page c s)
              (λ (page, t).
                ok (record t { ptb_list = register_ptb_mlist page pid addr level t.ptb_list }))
              {t = t} (ground arith) in
          let (same, g) = alloc_page-kalloc c s u page f in
          let e2 : t ≡ record u { ptb_list = register_ptb_mlist page pid addr level u.ptb_list } =
            ground arith in
          rw e2 (
            record {
              mem = same.mem;
              idx_ptdup = same.idx_ptdup;
              heads = same.heads;
              nextpid = same.nextpid;
            },
            inr (page, g),
          )
    ]
