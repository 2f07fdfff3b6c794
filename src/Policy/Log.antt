-- ===== src/Policy/Log.antt =====
-- kernel/recovery_handler_log.c: what the handler of struct log reads from the stack, and its
-- After-Treatment.
use ev.Prelude.{
  ℕ, ◌+◌, ◌≡◌, ◌≢◌, inl, inr, refl, Bool, true, false, ◌&&◌, ◌||◌, List, [], ◌∷◌, Option, none,
  some, if◌then◌else◌, arith, Option-cases,
}
use ev.Prelude.Int.{ℤ}
use ev.Policy.{Code, Mode, Fn, Layout, inside, is_conservative, is_enabled}

-- The flags of the handler's loop.
pub record Passed : Type 0 where
  pub chdir : Bool
  pub begin_op : Bool
  pub end_op : Bool
  pub log_write : Bool

abbrev pub none_passed : Passed
none_passed = record { chdir = false; begin_op = false; end_op = false; log_write = false }

-- The first chain of tests; `none` is the return of FAIL_STOP. Its last test asks for `end_op` once
-- more.
unfoldable pub note : Layout → Mode → Passed → ℕ → Option Passed
unfolding inside is_conservative
note l mode p pc =
    if inside l Fn.log_write pc
    then (if is_conservative mode then none else some (record p { log_write = true }))
    else if inside l Fn.begin_op pc
    then some (record p { begin_op = true })
    else if inside l Fn.end_op pc
    then some (record p { end_op = true })
    else if inside l Fn.sys_chdir pc
    then some (record p { chdir = true })
    else if inside l Fn.end_op pc && p.chdir
    then none
    else some p

-- The second test, in the conservative mode only.
unfoldable pub stops_log : Layout → Mode → Passed → ℕ → Bool
unfolding inside is_conservative
stops_log l mode p pc =
    is_conservative mode
    && (inside l Fn.create pc
        || (inside l Fn.fileclose pc && p.begin_op)
        || inside l Fn.sys_write pc)

unfoldable pub scan_log : Layout → Mode → Passed → List ℕ → Option Passed
scan_log l mode p [] = some p
scan_log l mode p (pc ∷ pcs) = elim (note l mode p pc) [
  | none ↦ none
  | some q ↦ if stops_log l mode q pc then none else scan_log l mode q pcs
]

-- The result of `after_treatment_log`, and how often it counts up the reference to `p->cwd`.
unfoldable pub after_treatment_log : Layout → ℤ → List ℕ → Code × ℕ
unfolding inside is_enabled
after_treatment_log l uc [] = (if is_enabled uc then Code.syscall_redo else Code.syscall_fail, 0)
after_treatment_log l uc (pc ∷ pcs) =
    let (ret, refs) = after_treatment_log l uc pcs in
    if inside l Fn.exit pc then (Code.process_kill, refs + 1) else (ret, refs)

note-aggressive : (l : Layout) (p : Passed) (pc : ℕ) → note l Mode.aggressive p pc ≢ none
unfolding note is_conservative
note-aggressive l p pc = ground arith

stops_log-aggressive : (l : Layout) (p : Passed) (pc : ℕ) → stops_log l Mode.aggressive p pc ≡ false
unfolding stops_log is_conservative
stops_log-aggressive l p pc = refl

-- In the aggressive mode the scan never stops the system, also with `sys_chdir` and `end_op` on the
-- stack, which the last test of the chain asks for.
pub scan_log-aggressive :
    (l : Layout) (p : Passed) (pcs : List ℕ) → scan_log l Mode.aggressive p pcs ≢ none
unfolding scan_log
scan_log-aggressive l p [] = ground arith
scan_log-aggressive l p (pc ∷ pcs) = elim (Option-cases (note l Mode.aggressive p pc)) [
  | inl e ↦ absurd (note-aggressive l p pc e)
  | inr (q, e) ↦ ground (arith, stops_log-aggressive l q pc, scan_log-aggressive l q pcs)
]
