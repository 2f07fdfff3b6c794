-- ===== src/Policy/Console.antt =====
-- kernel/recovery_handlers_console.c and recovery_handlers_locks.c: the After-Treatments of struct
-- cons, struct pr and tickslock, with the recovery locks and sections that they leave.
use ev.Prelude.{ℕ, Bool, false, List, if◌then◌else◌, Result, ok, ◌>>=◌}
use ev.Prelude.Int.{ℤ}
use ev.Policy.{Code, Fn, Layout, inside, Verdict, stop, go, scan, any_of, is_enabled}
use ev.Policy.Trap.{Trap, identify_nmi_occurred_trap}
use ev.RecoveryLock.Index.{rl_flag_cons}
use ev.RecoveryLock.Locks.{State, Caller, Intr, release_recovery_lock, exit_rcs_after_recovery}

-- A round of the loop of `after_treatment_cons`.
unfoldable pub treat_cons : Layout → Trap → Code → ℕ → Verdict
unfolding inside
treat_cons l trap ret pc =
    if inside l Fn.consoleintr pc
    then elim trap [
      | Trap.usertrap ↦ go Code.return_to_user
      | Trap.kerneltrap ↦ go Code.return_to_kernel
      | Trap.neither ↦ go ret
    ]
    else go ret

-- Only the way back to the kernel keeps the sections of the interrupted code.
unfoldable pub intr_of : Code → Intr
intr_of Code.return_to_kernel = Intr.consintr_cons
intr_of _ = Intr.none_of_these

unfoldable pub after_treatment_cons :
    Layout → ℤ → Caller → ℕ → List ℕ → State → Result (Code × State)
unfolding scan treat_cons intr_of
after_treatment_cons l uc c pid pcs s =
    let ret =
      scan (treat_cons l (identify_nmi_occurred_trap l pcs))
        (if is_enabled uc then Code.syscall_redo else Code.syscall_fail) pcs in
    release_recovery_lock c.cpu rl_flag_cons s
    >>= exit_rcs_after_recovery c pid (intr_of ret)
    >>= λ t. ok (ret, t)

-- A round of the loop of `after_treatment_pr`, with `pr->locking`.
unfoldable pub treat_pr : Layout → Trap → Code → ℕ → Verdict
unfolding inside
treat_pr l trap ret pc =
    if inside l Fn.panic_fn pc
    then go Code.fail_stop
    else if inside l Fn.consoleintr pc
    then elim trap [
      | Trap.usertrap ↦ go Code.return_to_user
      | Trap.kerneltrap ↦ go Code.return_to_kernel
      | Trap.neither ↦ go ret
    ]
    else go ret

-- Beside the code and the sections, the new value of `pr->locking`.
unfoldable pub after_treatment_pr :
    Layout → Bool → Caller → ℕ → List ℕ → State → Result (Code × Bool × State)
unfolding scan treat_pr intr_of any_of
after_treatment_pr l locking c pid pcs s =
    let ret = scan (treat_pr l (identify_nmi_occurred_trap l pcs)) Code.process_kill pcs in
    exit_rcs_after_recovery c pid (intr_of ret) s >>= λ t.
    ok (ret, (if any_of (inside l Fn.panic_fn) pcs then false else locking), t)

unfoldable pub treat_tickslock : Layout → Trap → Code → ℕ → Verdict
unfolding inside
treat_tickslock l trap ret pc =
    if inside l Fn.clockintr pc
    then elim trap [
      | Trap.usertrap ↦ stop Code.return_to_user
      | Trap.kerneltrap ↦ stop Code.return_to_kernel
      | Trap.neither ↦ go ret
    ]
    else go ret

unfoldable pub after_treatment_tickslock : Layout → ℤ → List ℕ → Code
unfolding scan treat_tickslock
after_treatment_tickslock l uc pcs =
    scan (treat_tickslock l (identify_nmi_occurred_trap l pcs))
      (if is_enabled uc then Code.syscall_redo else Code.syscall_fail) pcs
