-- ===== src/Tracker/Queue.antt =====
-- kernel/nmi_handle.c and kernel/mlist_tracker.c: the NMI queue, an array of NMI_QUEUE_SIZE places on
-- the stack of the first process that met a memory error, and the list of recovered objects.
pub mod Fifo
pub mod Recovered
mod Tests
use ev.Prelude.{
  ℕ, zero, suc, ◌+◌, ◌-◌, ◌%◌, ◌^◌, ◌≡◌, refl, Bool, true, false, ◌&&◌, ◌||◌, List, [], ◌∷◌, Option,
  none, some, ◌==◌, leb, if◌then◌else◌, replicate, Result, ok, panic, fault, ◌>>=◌,
}
use ev.Params.{nmi_queue_size, depth}
use ev.Policy.{Code}

-- `struct nmi_info`.
pub record NmiInfo : Type 0 where
  pub addr : ℕ
  pub pid : ℕ
  pub sp : ℕ
  pub s0 : ℕ

abbrev pub no_nmi : NmiInfo
no_nmi = record { addr = 0; pid = 0; sp = 0; s0 = 0 }

-- `mem_nmi_handle_first`: a clean queue with the error of the first process.
unfoldable pub first_queue : NmiInfo → List NmiInfo
first_queue q = q ∷ replicate (nmi_queue_size - 1) no_nmi

-- The loop of `mem_nmi_handle_follow` over the places behind the first; `none` says that it ended
-- without a break.
unfoldable pub enqueue_from : NmiInfo → List NmiInfo → Option (List NmiInfo)
enqueue_from q [] = none
enqueue_from q (x ∷ xs) =
    if x.addr == 0
    then some (q ∷ xs)
    else elim (enqueue_from q xs) [ none ↦ none | some ys ↦ some (x ∷ ys) ]

unfoldable pub last_addr : List NmiInfo → ℕ
last_addr [] = 0
last_addr (x ∷ []) = x.addr
last_addr (x ∷ y ∷ r) = last_addr (y ∷ r)

-- A full queue stops the system, unless its last place holds the same address.
unfoldable pub enqueue : NmiInfo → List NmiInfo → Result (List NmiInfo)
unfolding enqueue_from last_addr
enqueue q [] = fault
enqueue q (x ∷ xs) = elim (enqueue_from q xs) [
  | some ys ↦ ok (x ∷ ys)
  | none ↦ if last_addr (x ∷ xs) == q.addr then ok (x ∷ xs) else panic
]

-- The loop of `ret_and_search_nmiqueue`: each place takes the next one, until an empty one was taken.
-- The last place is never written.
unfoldable pub shift : List NmiInfo → List NmiInfo
shift [] = []
shift (x ∷ []) = x ∷ []
shift (x ∷ y ∷ r) =
    let rest = shift (y ∷ r) in if y.addr == 0 && y.pid == 0 then y ∷ y ∷ r else y ∷ rest

-- From the second `acquire` on; before it the function waits until the process at the head, if it is
-- another one, has taken its result. The address at the head after the shift, 0 where no error is left.
unfoldable pub ret_and_search_nmiqueue : List NmiInfo → List NmiInfo × ℕ
unfolding shift
ret_and_search_nmiqueue q = (shift q, elim (shift q) [ [] ↦ 0 | x ∷ xs ↦ x.addr ])

-- `struct recovered_addr_node`.
pub record RecoveredAddr : Type 0 where
  pub start : ℕ
  pub end : ℕ
  pub terminate_flag : Code
  pub pid : ℕ
  pub rcs_flag : ℕ

-- The first empty place takes the object; a full list drops it.
unfoldable pub record_recovered_memobj : RecoveredAddr → List RecoveredAddr → List RecoveredAddr
record_recovered_memobj r [] = []
record_recovered_memobj r (x ∷ xs) =
    if x.start == 0 && x.end == 0 then r ∷ xs else x ∷ record_recovered_memobj r xs

unfoldable pub search_recovered : ℕ → List RecoveredAddr → Option Code
search_recovered target [] = none
search_recovered target (x ∷ xs) =
    if leb x.start target && leb target x.end
    then some x.terminate_flag
    else search_recovered target xs

-- The address is cut to its low 32 bits first; `none` is -1.
unfoldable pub search_recovered_addr : ℕ → List RecoveredAddr → Option Code
unfolding search_recovered
search_recovered_addr broken xs = search_recovered (broken % 2 ^ 32) xs

-- The loop of `is_in_old_rcs` runs on after a match.
unfoldable pub old_rcs_flag : ℕ → ℕ → List RecoveredAddr → ℕ
old_rcs_flag r_pid flag [] = flag
old_rcs_flag r_pid flag (x ∷ xs) =
    old_rcs_flag r_pid (if x.pid == r_pid then x.rcs_flag else flag) xs
