-- ===== src/Policy/Memory.antt =====
-- kernel/recovery_handlers_MM.c and kernel/recovery_handler_pipe.c: the After-Treatments of the page
-- allocator and of pipes.
use ev.Prelude.{ℕ, ◌≡◌, ◌≢◌, Bool, true, ◌&&◌, ◌||◌, List, [], ◌∷◌, ltb, ◌↔◌, if◌then◌else◌, arith}
use ev.Prelude.Int.{ℤ, pred, is_pos}
use ev.Policy.{
  Code, Mode, Fn, Layout, inside, is_conservative, Verdict, stop, go, scan, any_of, truthy,
}

-- The two tests that end in Fail-Stop.
unfoldable pub is_fatal_mm : Layout → Mode → ℕ → Bool
is_fatal_mm l mode pc =
    (inside l Fn.freeproc pc
      || inside l Fn.kvminit pc
      || inside l Fn.procinit pc
      || inside l Fn.uvmunmap pc)
    || (is_conservative mode
        && (inside l Fn.sys_exec pc || inside l Fn.uvmalloc pc || inside l Fn.uvmcopy pc))

unfoldable pub treat_mm : Layout → Mode → Code → ℕ → Verdict
unfolding is_fatal_mm inside is_conservative
treat_mm l mode ret pc =
    if is_fatal_mm l mode pc
    then stop Code.fail_stop
    else if inside l Fn.sys_close pc
    then go Code.syscall_success
    else if inside l Fn.exit pc || inside l Fn.uvmalloc pc
    then go Code.process_kill
    else go ret

-- The code of `after_treatment`; `undone` says that `check_and_handle_trans_pagetable` found a
-- transaction of the process.
unfoldable pub after_treatment_mm : Layout → Mode → (uc : ℤ) → (undone : Bool) → List ℕ → Code
unfolding scan treat_mm
after_treatment_mm l mode uc undone pcs =
    elim (scan (treat_mm l mode) (if truthy uc then Code.syscall_redo else Code.syscall_fail) pcs) [
      | Code.syscall_fail ↦ if undone then Code.process_kill else Code.syscall_fail
      | c ↦ c
    ]

-- How often `pipealloc` stands on the stack: each time the files of pipes are closed.
unfoldable pub closes_pipes : Layout → ℕ → Bool
closes_pipes l pc = ltb (l Fn.pipealloc).start pc && ltb pc (l Fn.pipealloc).end

-- What `sys_sbrk` on the stack does to `log->outstanding`; 1 stays.
unfoldable pub sbrk_outstanding : ℤ → ℤ
sbrk_outstanding i = if is_pos (pred i) then pred i else i

unfoldable pub treat_pipe : Layout → ℤ → Code → ℕ → Verdict
unfolding inside truthy
treat_pipe l uc ret pc =
    if inside l Fn.exit pc
    then go Code.process_kill
    else if inside l Fn.sys_close pc
    then go Code.syscall_success
    else if truthy uc && inside l Fn.sys_pipe pc
    then go Code.syscall_redo
    else go ret

unfoldable pub after_treatment_pipe : Layout → ℤ → List ℕ → Code
unfolding scan treat_pipe
after_treatment_pipe l uc pcs = scan (treat_pipe l uc) Code.syscall_fail pcs

scan-fatal :
    (l : Layout) (mode : Mode) (ret : Code) (pcs : List ℕ)
    → ret ≢ Code.fail_stop
    → (scan (treat_mm l mode) ret pcs ≡ Code.fail_stop) ↔ (any_of (is_fatal_mm l mode) pcs ≡ true)
unfolding scan treat_mm any_of
scan-fatal l mode ret [] ne = ground arith
scan-fatal l mode ret (pc ∷ pcs) ne = ground (
  arith,
  scan-fatal l mode ret pcs ne,
  scan-fatal l mode Code.syscall_success pcs (ground arith),
  scan-fatal l mode Code.process_kill pcs (ground arith),
)

after_code :
    (c : Code) (undone : Bool)
    → (elim c as (λ x. Code) [
      | Code.syscall_fail ↦ if undone then Code.process_kill else Code.syscall_fail
      | d ↦ d
    ]
        ≡ Code.fail_stop)
      ↔ (c ≡ Code.fail_stop)
after_code c undone = ground arith

-- After an error in the allocator's objects the system stops exactly when one of the functions for
-- which that is fixed is on the call stack, in the conservative mode also `sys_exec`, `uvmalloc` or
-- `uvmcopy`; what else is on the stack, user cooperation and broken transactions make no difference.
pub after_treatment_mm_iff :
    (l : Layout) (mode : Mode) (uc : ℤ) (undone : Bool) (pcs : List ℕ)
    → (after_treatment_mm l mode uc undone pcs ≡ Code.fail_stop)
      ↔ (any_of (is_fatal_mm l mode) pcs ≡ true)
unfolding after_treatment_mm
after_treatment_mm_iff l mode uc undone pcs = ground (
  arith,
  after_code
      (scan (treat_mm l mode) (if truthy uc then Code.syscall_redo else Code.syscall_fail) pcs)
      undone,
  scan-fatal l mode (if truthy uc then Code.syscall_redo else Code.syscall_fail) pcs (ground arith),
)
