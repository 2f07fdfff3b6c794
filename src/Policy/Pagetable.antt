-- ===== src/Policy/Pagetable.antt =====
-- kernel/recovery_handler_pagetable.c: what the handler of page tables reads from the stack, and its
-- After-Treatment.
use ev.Prelude.{ℕ, Bool, true, false, ◌&&◌, ◌||◌, List, [], ◌∷◌, if◌then◌else◌}
use ev.Policy.{Code, Mode, Fn, Layout, inside, is_conservative, Verdict, stop, go, scan}
use ev.Policy.Trap.{Trap, identify_nmi_occurred_trap}

-- The two tests of `check_all_fail_stop_cases` that end in Fail-Stop.
unfoldable pub is_fatal_pagetable : Layout → Mode → ℕ → Bool
unfolding inside is_conservative
is_fatal_pagetable l mode pc =
    (inside l Fn.freeproc pc || inside l Fn.uvmunmap pc)
    || (is_conservative mode
        && (inside l Fn.uvmalloc pc || inside l Fn.uvmcopy pc || inside l Fn.sys_write pc))

unfoldable pub check_pagetable : Layout → Mode → Code → ℕ → Verdict
unfolding is_fatal_pagetable inside
check_pagetable l mode ret pc =
    if is_fatal_pagetable l mode pc
    then stop Code.fail_stop
    else if inside l Fn.uvmalloc pc
    then stop Code.process_kill
    else go ret

unfoldable pub check_all_fail_stop_cases : Layout → Mode → List ℕ → Code → Code
unfolding scan check_pagetable
check_all_fail_stop_cases l mode pcs ret = scan (check_pagetable l mode) ret pcs

-- `ret >= SYSCALL_FAIL`.
unfoldable pub is_past_success : Code → Bool
is_past_success Code.unset = false
is_past_success Code.failed = false
is_past_success Code.syscall_success = false
is_past_success _ = true

unfoldable pub is_intr : Layout → ℕ → Bool
unfolding inside
is_intr l pc = inside l Fn.consoleintr pc || inside l Fn.clockintr pc

-- A round of the loop of `after_treatment_user_pagetable`; `above` is the next return address.
unfoldable pub treat_pagetable : Layout → Trap → (above : ℕ) → Code → ℕ → Verdict
unfolding is_intr inside is_past_success
treat_pagetable l trap above ret pc =
    if is_intr l pc
    then elim trap [
      | Trap.usertrap ↦ stop Code.process_kill
      | Trap.kerneltrap ↦ if is_past_success ret then stop Code.return_to_kernel else go ret
      | Trap.neither ↦ go ret
    ]
    else if inside l Fn.virtio_disk_intr pc
    then elim trap [
      | Trap.usertrap ↦ stop Code.process_kill
      | Trap.kerneltrap ↦ stop Code.fail_stop
      | Trap.neither ↦ go ret
    ]
    else if inside l Fn.kernelvec pc || inside l Fn.nmivec pc
    then (if inside l Fn.kerneltrap above then stop Code.fail_stop else go ret)
    else go ret

abbrev pub next_pc : ℕ → List ℕ → ℕ
next_pc beyond [] = beyond
next_pc beyond (pc ∷ pcs) = pc

-- `beyond` is the word behind the array, which the last round reads.
unfoldable pub treat_from : Layout → Trap → (beyond : ℕ) → Code → List ℕ → Code
unfolding treat_pagetable
treat_from l trap beyond ret [] = ret
treat_from l trap beyond ret (pc ∷ pcs) =
    elim (treat_pagetable l trap (next_pc beyond pcs) ret pc) [
      | stop r ↦ r
      | go r ↦ treat_from l trap beyond r pcs
    ]

unfoldable pub after_treatment_user_pagetable : Layout → (beyond : ℕ) → List ℕ → Code → Code
unfolding treat_from
after_treatment_user_pagetable l beyond pcs ret = elim ret [
  | Code.fail_stop ↦ Code.fail_stop
  | other ↦ treat_from l (identify_nmi_occurred_trap l pcs) beyond other pcs
]
