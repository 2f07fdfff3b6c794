-- ===== src/UserCoop.antt =====
-- kernel/user_coop.c: which processes cooperate in recovery, one bit for each `struct proc`. The
-- 64-bit word `user_coop_status` is the list of its bits, the lowest first.
pub mod Answers
use ev.Prelude.{
  ℕ, zero, suc, ◌+◌, ◌≡◌, ◌≢◌, refl, Bool, true, false, List, [], ◌∷◌, Option, none, some, ◌==◌,
  if◌then◌else◌, get_elem?, set, get_elem?-set_self, get_elem?-set_ne, get_elem?-lt-length, length,
  ◌<◌, ◌≤◌, arith, Option-cases, Bool-cases, inl, inr, ==_iff,
}
use ev.Prelude.Int.{ℤ, pos, negsuc}

pub record State : Type 0 where
  pub user_coop_status : List Bool
  pub pids : List ℕ

-- The index of the first `struct proc` with the pid.
unfoldable pub proc_index : ℕ → List ℕ → Option ℕ
proc_index pid [] = none
proc_index pid (q ∷ ps) =
    if pid == q then some 0 else elim (proc_index pid ps) [ none ↦ none | some i ↦ some (suc i) ]

unfoldable pub sys_enable_user_coop : ℕ → State → State × ℤ
unfolding proc_index
sys_enable_user_coop me s = elim (proc_index me s.pids) [
  | none ↦ (s, negsuc 0)
  | some i ↦ (record s { user_coop_status = set s.user_coop_status i true }, pos 0)
]

unfoldable pub sys_disable_user_coop : ℕ → State → State × ℤ
unfolding proc_index
sys_disable_user_coop me s = elim (proc_index me s.pids) [
  | none ↦ (s, negsuc 0)
  | some i ↦ (record s { user_coop_status = set s.user_coop_status i false }, pos 0)
]

abbrev pub bit : Option Bool → ℤ
bit none = pos 0
bit (some false) = pos 0
bit (some true) = pos 1

unfoldable pub is_enable_user_coop : ℕ → State → ℤ
unfolding proc_index
is_enable_user_coop pid s = elim (proc_index pid s.pids) [
  | none ↦ negsuc 0
  | some i ↦ bit (get_elem? s.user_coop_status i)
]
