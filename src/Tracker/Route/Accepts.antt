-- ===== src/Tracker/Route/Accepts.antt =====
-- What the After-Treatments return is what `mlist_tracker` expects of the object: none of it ends in
-- `bad` or stops the system, and it ends the recovery in a way that the last switch knows.
use ev.Prelude.{ℕ, ◌≡◌, Bool, true, false, List, [], ◌∷◌, if◌then◌else◌, arith, ok}
use ev.Prelude.Int.{ℤ}
use ev.Policy.{Code, Mode, Layout, scan_inv, verdict_code, truthy, is_enabled}
use ev.Policy.Trap.{Trap, identify_nmi_occurred_trap}
use ev.Policy.Buf.{treat_buf, after_treatment_buf}
use ev.Policy.File.{treat_file, treatment_code}
use ev.Policy.Inode.{treat_inode, after_treatment_inode}
use ev.Policy.Log.{after_treatment_log}
use ev.Policy.Console.{treat_cons, after_treatment_cons, treat_tickslock, after_treatment_tickslock}
use ev.RecoveryLock.Locks.{State, Caller}
use ev.Tracker.Route.{
  Route, bad, recovery_success, recovery_success_intr, stops, finish, invalid, route_buf,
  route_file, route_inode, route_log, route_cons, route_locks,
}

-- A route on which the system runs on, and the recovery ends as the last switch expects.
unfoldable pub goes_on : Route → Code → Bool
goes_on (recovery_success) c = elim (finish c) [ invalid ↦ false | _ ↦ true ]
goes_on (recovery_success_intr irq) c = elim (finish c) [ invalid ↦ false | _ ↦ true ]
goes_on stops c = false
goes_on bad c = false

module _ (l : Layout) (uc : ℤ) where
  round_buf :
      (mode : Mode) (trap : Trap) (r : Code) (pc : ℕ)
      → goes_on (route_buf r) r ≡ true
      → let c = verdict_code (treat_buf l mode uc trap r pc) in goes_on (route_buf c) c ≡ true
  unfolding treat_buf goes_on route_buf finish
  round_buf mode trap r pc h = ground arith

  round_file :
      (r : Code) (pc : ℕ)
      → goes_on (route_file r) r ≡ true
      → let c = verdict_code (treat_file l uc r pc) in goes_on (route_file c) c ≡ true
  unfolding treat_file goes_on route_file finish
  round_file r pc h = ground arith

  round_inode :
      (fp : Bool) (r : Code) (pc : ℕ)
      → goes_on (route_inode r) r ≡ true
      → let c = verdict_code (treat_inode l uc fp r pc) in goes_on (route_inode c) c ≡ true
  unfolding treat_inode goes_on route_inode finish
  round_inode fp r pc h = ground arith

  round_cons :
      (trap : Trap) (r : Code) (pc : ℕ)
      → goes_on (route_cons r) r ≡ true
      → let c = verdict_code (treat_cons l trap r pc) in goes_on (route_cons c) c ≡ true
  unfolding treat_cons goes_on route_cons finish
  round_cons trap r pc h = ground arith

  round_locks :
      (irq : ℕ) (trap : Trap) (r : Code) (pc : ℕ)
      → goes_on (route_locks irq r) r ≡ true
      → let c = verdict_code (treat_tickslock l trap r pc) in goes_on (route_locks irq c) c ≡ true
  unfolding treat_tickslock goes_on route_locks finish
  round_locks irq trap r pc h = ground arith

  log_accepted :
      (pcs : List ℕ) → let c = (after_treatment_log l uc pcs).0 in goes_on (route_log c) c ≡ true
  unfolding after_treatment_log goes_on route_log finish
  log_accepted [] = ground arith
  log_accepted (pc ∷ pcs) = ground (arith, log_accepted pcs)

  -- Whatever the stack, the mode, the answer about user cooperation and the interrupt number of an
  -- earlier round are: the codes that the After-Treatments of struct buf, file, inode, log and
  -- tickslock return are taken by `mlist_tracker` as a success, and by its last switch as an end
  -- that it knows.
  pub codes_accepted :
      (mode : Mode) (pipe fp : Bool) (irq : ℕ) (pcs : List ℕ)
      → let buf = after_treatment_buf l mode uc pcs in
        let file = treatment_code l uc pipe pcs in
        let inode = after_treatment_inode l uc fp pcs in
        let log = (after_treatment_log l uc pcs).0 in
        let lock = after_treatment_tickslock l uc pcs in
        (goes_on (route_buf buf) buf ≡ true)
        × (goes_on (route_file file) file ≡ true)
        × (goes_on (route_inode inode) inode ≡ true)
        × (goes_on (route_log log) log ≡ true)
        × (goes_on (route_locks irq lock) lock ≡ true)
  unfolding after_treatment_buf treatment_code after_treatment_inode after_treatment_tickslock
      goes_on route_buf route_file route_inode route_locks finish
  codes_accepted mode pipe fp irq pcs = (
    scan_inv (λ c. goes_on (route_buf c) c) (treat_buf l mode uc (identify_nmi_occurred_trap l pcs))
        (if truthy uc then Code.syscall_redo else Code.syscall_fail) pcs
        (round_buf mode (identify_nmi_occurred_trap l pcs)) (ground arith),
    scan_inv (λ c. goes_on (route_file c) c) (treat_file l uc)
        (if pipe
          then Code.syscall_fail
          else if is_enabled uc
          then Code.reopen_syscall_redo
          else Code.syscall_fail)
        pcs round_file (ground arith),
    scan_inv (λ c. goes_on (route_inode c) c) (treat_inode l uc fp)
        (if is_enabled uc then Code.syscall_redo else Code.syscall_fail) pcs (round_inode fp)
        (ground arith),
    log_accepted pcs,
    scan_inv (λ c. goes_on (route_locks irq c) c)
        (treat_tickslock l (identify_nmi_occurred_trap l pcs))
        (if is_enabled uc then Code.syscall_redo else Code.syscall_fail) pcs
        (round_locks irq (identify_nmi_occurred_trap l pcs)) (ground arith),
  )

  -- Whatever the stack and the answer about user cooperation are: a code with which the After-Treatment
  -- of struct cons returns is taken by `mlist_tracker` as a success, and by its last switch as an end
  -- that it knows.
  pub cons_accepted :
      (c : Caller) (pid : ℕ) (pcs : List ℕ) (s t : State) (ret : Code)
      → after_treatment_cons l uc c pid pcs s ≡ ok (ret, t)
      → goes_on (route_cons ret) ret ≡ true
  unfolding after_treatment_cons goes_on route_cons finish
  cons_accepted c pid pcs s t ret h = ground (
    arith,
    scan_inv (λ c. goes_on (route_cons c) c) (treat_cons l (identify_nmi_occurred_trap l pcs))
        (if is_enabled uc then Code.syscall_redo else Code.syscall_fail) pcs
        (round_cons (identify_nmi_occurred_trap l pcs)) (ground arith),
  )
