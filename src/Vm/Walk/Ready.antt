-- ===== src/Vm/Walk/Ready.antt =====
-- kernel/vm.c: what has to hold for `walk` on the page table of a user process.
use ev.Prelude.{ℕ, ◌≡◌, true, false, some, ltb, eq_or_ne, inl, inr}
use ev.Vm.{State, Words}
use ev.Vm.Walk.{find_l0}
use ev.Vm.Mirror.{Mirror, Same, Quiet}
use ev.Vm.Mirror.Switch.{Switched, Leads}
use ev.Vm.Pool.{Pool, Quiet-Pool, contains_ne}
use ev.Kalloc
use ev.MList.View.{contains}

-- The duplicates agree with the tables, no free page is a table, and there are user processes.
pub record Ready (s : State) (idx root : ℕ) : Type 0 where
  pub mirror : Mirror s idx root
  pub pool : Pool s.mem root s.pages
  pub user : ltb 2 s.pages.trans.nextpid ≡ true

-- Every way to a table of level 0 is kept.
abbrev pub Keeps : State → State → ℕ → Type 0
Keeps s t root = (va x : ℕ) → find_l0 s.mem root va ≡ some x → find_l0 t.mem root va ≡ some x

pub Keeps-Keeps : (s t u : State) (root : ℕ) → Keeps s t root → Keeps t u root → Keeps s u root
Keeps-Keeps s t u root f g va x h = g va x (f va x h)

pub Same-Mirror : (s t : State) (idx root : ℕ) → Same s t → Mirror s idx root → Mirror t idx root
Same-Mirror s t idx root same w = record {
  tree = rw same.mem w.tree;
  at_idx = rw same.idx_ptdup w.at_idx;
  level2 = rw (same.heads, same.mem) w.level2;
  level1 = rw (same.heads, same.mem) w.level1;
}

pub Same-Keeps : (s t : State) (root : ℕ) → Same s t → Keeps s t root
Same-Keeps s t root same va x h = rw same.mem h

pub Quiet-Ready : (s t : State) (idx root : ℕ) → Quiet s t → Ready s idx root → Ready t idx root
Quiet-Ready s t idx root q w = record {
  mirror = Same-Mirror s t idx root q.0 w.mirror;
  pool = rw q.0.mem (Quiet-Pool s.mem root s t q w.pool);
  user = rw q.0.nextpid w.user;
}

-- The page that became a table is no longer free.
pub Pool-switch :
    (m m' : ℕ → Words) (root i new : ℕ) (words : Words) (k : Kalloc.State)
    → Pool m root k
    → contains new k.trans.freelist ≡ false
    → Leads new
    → Switched m m' root i new words
    → Pool m' root k
Pool-switch m m' root i new words k w gone (v, back) sw = record {
  free = w.free;
  fresh = λ x h. (
    (w.fresh x h).0,
    λ j. elim (eq_or_ne j i) [
      | inl e ↦ rw (e, sw.entry, back) (contains_ne x new k.trans.freelist h gone)
      | inr ne ↦ rw (sw.others j ne) ((w.fresh x h).1 j)
    ],
  );
}
