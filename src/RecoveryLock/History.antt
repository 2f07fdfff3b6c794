-- ===== src/RecoveryLock/History.antt =====
-- kernel/recovery_locking.c: the sections that each process stands in (`struct proc_rcs_info`).
pub mod Counts
pub mod Order
use ev.Prelude.{
  ℕ, zero, suc, ◌+◌, ◌≡◌, Bool, true, false, ◌&&◌, ◌||◌, List, [], ◌∷◌, Option, none, some, ◌==◌,
  if◌then◌else◌, replicate,
}

abbrev pub rcs_info_history_size : ℕ
rcs_info_history_size = 5

-- `struct proc_rcs_info`; 0 in the history marks an empty place.
pub record RcsInfo : Type 0 where
  pub pid : ℕ
  pub history_idx : List ℕ

-- The first entry without a process takes the pid.
unfoldable pub init_rcs_infos : ℕ → List RcsInfo → List RcsInfo
init_rcs_infos pid [] = []
init_rcs_infos pid (r ∷ rs) =
    if r.pid == 0 then record r { pid = pid } ∷ rs else r ∷ init_rcs_infos pid rs

-- The entry of a pid is the first one that names it; `none` is the index -1.
unfoldable pub history : ℕ → List RcsInfo → Option (List ℕ)
history pid [] = none
history pid (r ∷ rs) = if r.pid == pid then some r.history_idx else history pid rs

unfoldable pub put_history : ℕ → List ℕ → List RcsInfo → List RcsInfo
put_history pid h [] = []
put_history pid h (r ∷ rs) =
    if r.pid == pid then record r { history_idx = h } ∷ rs else r ∷ put_history pid h rs

-- `add_rcs_history` on one history: the first empty place takes the flag, a full history drops it.
unfoldable pub add_flag : ℕ → List ℕ → List ℕ
add_flag flag [] = []
add_flag flag (x ∷ xs) = if x == 0 then flag ∷ xs else x ∷ add_flag flag xs

unfoldable pub has_flag : ℕ → List ℕ → Bool
has_flag flag [] = false
has_flag flag (x ∷ xs) = x == flag || has_flag flag xs

-- The first loop of `del_rcs_history`, from the end: the last place that holds the flag is emptied.
unfoldable pub clear_last : ℕ → List ℕ → List ℕ
clear_last flag [] = []
clear_last flag (x ∷ xs) =
    if has_flag flag xs then x ∷ clear_last flag xs else if x == flag then 0 ∷ xs else x ∷ xs

-- Its second loop, with the assignment after it: a hole moves up until another follows it, and
-- without a break the last place is emptied.
unfoldable pub close_up : List ℕ → List ℕ
close_up [] = []
close_up (x ∷ []) = 0 ∷ []
close_up (x ∷ y ∷ r) =
    if x == 0 && y == 0
    then x ∷ y ∷ r
    else (if x == 0 then y else x) ∷ close_up ((if x == 0 then 0 else y) ∷ r)

unfoldable pub del_flag : ℕ → List ℕ → List ℕ
del_flag flag h = close_up (clear_last flag h)

-- `free_rcs_history`: without an entry nothing happens.
unfoldable pub free_rcs_history : ℕ → List RcsInfo → List RcsInfo
free_rcs_history pid [] = []
free_rcs_history pid (r ∷ rs) =
    if r.pid == pid
    then record { pid = 0; history_idx = replicate rcs_info_history_size 0 } ∷ rs
    else r ∷ free_rcs_history pid rs
