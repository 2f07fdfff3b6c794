-- ===== src/UserCoop/Answers.antt =====
-- kernel/user_coop.c: what the two system calls change in the answers about cooperation.
mod Tests
use ev.Prelude.{
  ℕ, zero, suc, ◌+◌, ◌≡◌, ◌≢◌, refl, Bool, true, false, List, [], ◌∷◌, Option, none, some, ◌==◌,
  if◌then◌else◌, get_elem?, set, get_elem?-set_self, get_elem?-set_ne, get_elem?-lt-length, length,
  ◌<◌, ◌≤◌, arith, Option-cases, Bool-cases, inl, inr, ==_iff,
}
use ev.Prelude.Int.{ℤ, pos, negsuc}
use ev.UserCoop.{
  State, proc_index, sys_enable_user_coop, sys_disable_user_coop, bit, is_enable_user_coop,
}

proc_index-inj :
    (p q i : ℕ) (ps : List ℕ) → proc_index p ps ≡ some i → proc_index q ps ≡ some i → p ≡ q
unfolding proc_index
proc_index-inj p q i [] e f = absurd (ground arith)
proc_index-inj p q zero (r ∷ ps) e f =
    ground (arith, Option-cases (proc_index p ps), Option-cases (proc_index q ps))
proc_index-inj p q (suc i) (r ∷ ps) e f = ground (arith, proc_index-inj p q i ps)

proc_index-lt : (p i : ℕ) (ps : List ℕ) → proc_index p ps ≡ some i → i < length ps
unfolding proc_index
proc_index-lt p i [] e = absurd (ground arith)
proc_index-lt p zero (r ∷ ps) e = omega arith
proc_index-lt p (suc i) (r ∷ ps) e = ground (arith, proc_index-lt p i ps)

written :
    (bs : List Bool) (i j : ℕ) (v : Bool)
    → i < length bs
    → get_elem? (set bs i v) j ≡ (if i == j then some v else get_elem? bs j)
written bs i j v lt = elim (Bool-cases (i == j)) [
  | inl e ↦ ground (arith, get_elem?-set_self bs i v lt)
  | inr e ↦ ground (arith, get_elem?-set_ne bs {i = i} {j = j} v)
]

-- After a process has enabled cooperation the answer for it is 1, and the answer for every other pid is what
-- it was; a process that is not in the table changes nothing, and the answer for it is -1.
pub is_enable-sys_enable :
    (me pid : ℕ) (s : State)
    → length s.pids ≤ length s.user_coop_status
    → is_enable_user_coop pid (sys_enable_user_coop me s).0 ≡ (
        if pid == me
        then elim (proc_index me s.pids) [ none ↦ negsuc 0 | some i ↦ pos 1 ]
        else is_enable_user_coop pid s)
unfolding is_enable_user_coop sys_enable_user_coop
is_enable-sys_enable me pid s fits = elim (Option-cases (proc_index me s.pids)) [
  | inl e ↦ ground arith
  | inr (i, e) ↦ elim (Option-cases (proc_index pid s.pids)) [
    | inl f ↦ ground arith
    | inr (j, f) ↦ ground (
      arith,
      proc_index-lt me i s.pids e,
      proc_index-inj pid me j s.pids f,
      written s.user_coop_status i j true,
    )
  ]
]

-- After a process has disabled cooperation the answer for it is 0, and the answer for every other pid
-- is what it was; a process that is not in the table changes nothing, and the answer for it is -1.
pub is_enable-sys_disable :
    (me pid : ℕ) (s : State)
    → length s.pids ≤ length s.user_coop_status
    → is_enable_user_coop pid (sys_disable_user_coop me s).0 ≡ (
        if pid == me
        then elim (proc_index me s.pids) [ none ↦ negsuc 0 | some i ↦ pos 0 ]
        else is_enable_user_coop pid s)
unfolding is_enable_user_coop sys_disable_user_coop
is_enable-sys_disable me pid s fits = elim (Option-cases (proc_index me s.pids)) [
  | inl e ↦ ground arith
  | inr (i, e) ↦ elim (Option-cases (proc_index pid s.pids)) [
    | inl f ↦ ground arith
    | inr (j, f) ↦ ground (
      arith,
      proc_index-lt me i s.pids e,
      proc_index-inj pid me j s.pids f,
      written s.user_coop_status i j false,
    )
  ]
]
