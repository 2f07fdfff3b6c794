-- ===== src/Policy/Buf.antt =====
-- kernel/recovery_handler_buf.c: the Fail-Stop test and the After-Treatment of struct buf.
use ev.Prelude.{
  ℕ, ◌≡◌, ◌≢◌, inl, inr, refl, ◌∙◌, Bool, true, false, ◌&&◌, ◌||◌, List, [], ◌∷◌, if◌then◌else◌,
  arith, not, Bool-cases,
}
use ev.Prelude.Int.{ℤ}
use ev.Policy.{
  Code, Mode, Fn, Layout, inside, is_conservative, Verdict, stop, go, Verdict-cases, scan,
  verdict_code, any_of, Apart, truthy,
}
use ev.Policy.Trap.{Trap, identify_nmi_occurred_trap}

-- The functions whose interruption the conservative mode does not survive.
unfoldable pub is_unsafe : Layout → ℕ → Bool
is_unsafe l pc =
    inside l Fn.bfree pc
    || inside l Fn.dirlink pc
    || inside l Fn.iput pc
    || inside l Fn.log_write pc
    || inside l Fn.sys_link pc
    || inside l Fn.sys_write pc
    || inside l Fn.write_log pc

unfoldable pub treat_buf : Layout → Mode → ℤ → Trap → Code → ℕ → Verdict
unfolding is_unsafe inside is_conservative truthy
treat_buf l mode uc trap ret pc =
    if inside l Fn.exit pc
    then stop Code.process_kill
    else if is_unsafe l pc
    then go Code.syscall_fail
    else if inside l Fn.virtio_disk_intr pc
    then elim trap [
      | Trap.usertrap ↦ stop Code.return_to_user
      | Trap.kerneltrap ↦ stop Code.return_to_kernel
      | Trap.neither ↦ go ret
    ]
    else if is_conservative mode && inside l Fn.sys_close pc
    then stop Code.syscall_success
    else if inside l Fn.install_trans pc || inside l Fn.write_head pc
    then go (if truthy uc then Code.syscall_success else Code.syscall_fail)
    else go ret

unfoldable pub after_treatment_buf : Layout → Mode → ℤ → List ℕ → Code
unfolding scan truthy
after_treatment_buf l mode uc pcs =
    scan (treat_buf l mode uc (identify_nmi_occurred_trap l pcs))
      (if truthy uc then Code.syscall_redo else Code.syscall_fail) pcs

-- The functions whose interruption no mode survives.
unfoldable pub is_fatal : Layout → ℕ → Bool
is_fatal l pc = inside l Fn.brelse pc || inside l Fn.readsb pc || inside l Fn.fsinit pc

-- The loop of `check_fail_stop_cases` with its two flags.
unfoldable pub fail_stop_from : Layout → Mode → Bool → Bool → List ℕ → Bool
unfolding is_unsafe is_fatal inside is_conservative
fail_stop_from l mode is_sys_chdir is_end_op [] = is_sys_chdir && is_end_op
fail_stop_from l mode is_sys_chdir is_end_op (pc ∷ pcs) =
    let rest =
      fail_stop_from l mode (is_sys_chdir || inside l Fn.sys_chdir pc)
        (is_end_op || (not (inside l Fn.sys_chdir pc) && inside l Fn.end_op pc)) pcs in
    if is_fatal l pc then true else if is_conservative mode && is_unsafe l pc then true else rest

unfoldable pub check_fail_stop_cases : Layout → Mode → List ℕ → Bool
unfolding fail_stop_from
check_fail_stop_cases l mode pcs = fail_stop_from l mode false false pcs

-- What the loop finds, with its flags at the start.
abbrev found : Layout → Mode → Bool → Bool → List ℕ → Bool
found l mode c e pcs =
    any_of (is_fatal l) pcs
    || (is_conservative mode && any_of (is_unsafe l) pcs)
    || ((c || any_of (inside l Fn.sys_chdir) pcs) && (e || any_of (inside l Fn.end_op) pcs))

-- The flags go on, whichever of the two functions the address is in.
flags_step :
    (c e p q ps qs : Bool)
    → (p ≡ true → q ≡ false)
    → ((c || p || ps) && (e || (not p && q) || qs)) ≡ ((c || (p || ps)) && (e || (q || qs)))
flags_step c e p q ps qs h = ground arith

regroup :
    (f k u us c e p q ps qs : Bool)
    → (k && u) ≡ false
    → (p ≡ true → q ≡ false)
    → (f || (k && us) || ((c || p || ps) && (e || (not p && q) || qs)))
      ≡ (f || (k && (u || us)) || ((c || (p || ps)) && (e || (q || qs))))
regroup true k u us c e p q ps qs h g = refl
regroup false true u us c e p q ps qs h g = ground (arith, flags_step c e p q ps qs g)
regroup false false u us c e p q ps qs h g = flags_step c e p q ps qs g

fail_stop_from_lem :
    (l : Layout) (mode : Mode) (c e : Bool) (pcs : List ℕ)
    → Apart l Fn.sys_chdir Fn.end_op
    → fail_stop_from l mode c e pcs ≡ found l mode c e pcs
unfolding any_of fail_stop_from
fail_stop_from_lem l mode c e [] apart = ground arith
fail_stop_from_lem l mode c e (pc ∷ pcs) apart = elim (Bool-cases (is_fatal l pc)) [
  | inl f ↦ rw f
  | inr f ↦ elim (Bool-cases (is_conservative mode && is_unsafe l pc)) [
    | inl u ↦ ground arith
    | inr u ↦
        rw (f, u)
          (fail_stop_from_lem l mode (c || inside l Fn.sys_chdir pc)
              (e || (not (inside l Fn.sys_chdir pc) && inside l Fn.end_op pc)) pcs apart
            ∙ regroup (any_of (is_fatal l) pcs) (is_conservative mode) (is_unsafe l pc)
                (any_of (is_unsafe l) pcs) c e (inside l Fn.sys_chdir pc) (inside l Fn.end_op pc)
                (any_of (inside l Fn.sys_chdir) pcs) (any_of (inside l Fn.end_op) pcs) u (apart pc))
  ]
]

-- The test `check_fail_stop_cases`, one of those of the buffer handler, asks for Fail-Stop exactly when the stack holds `brelse`, `readsb` or `fsinit`, in
-- the conservative mode one of the unsafe functions, or both `sys_chdir` and `end_op`, given that the
-- last two do not overlap in memory.
pub check_fail_stop_cases_iff :
    (l : Layout) (mode : Mode) (pcs : List ℕ)
    → Apart l Fn.sys_chdir Fn.end_op
    → check_fail_stop_cases l mode pcs ≡ (
        any_of (is_fatal l) pcs
        || (is_conservative mode && any_of (is_unsafe l) pcs)
        || (any_of (inside l Fn.sys_chdir) pcs && any_of (inside l Fn.end_op) pcs))
unfolding check_fail_stop_cases
check_fail_stop_cases_iff l mode pcs apart = fail_stop_from_lem l mode false false pcs apart

-- A round that keeps or returns the wish to redo.
round-redo :
    (l : Layout) (mode : Mode) (uc : ℤ) (trap : Trap) (ret : Code) (pc : ℕ)
    → inside l Fn.virtio_disk_intr pc ≡ false
    → verdict_code (treat_buf l mode uc trap ret pc) ≡ Code.syscall_redo
    → (ret ≡ Code.syscall_redo) × (inside l Fn.exit pc ≡ false) × (is_unsafe l pc ≡ false)
unfolding treat_buf
round-redo l mode uc trap ret pc nv h = ground arith

stop-ne-redo :
    (l : Layout) (mode : Mode) (uc : ℤ) (trap : Trap) (ret : Code) (pc : ℕ)
    → treat_buf l mode uc trap ret pc ≢ stop Code.syscall_redo
unfolding treat_buf
stop-ne-redo l mode uc trap ret pc = ground arith

scan-redo :
    (l : Layout) (mode : Mode) (uc : ℤ) (trap : Trap) (ret : Code) (pcs : List ℕ)
    → any_of (inside l Fn.virtio_disk_intr) pcs ≡ false
    → scan (treat_buf l mode uc trap) ret pcs ≡ Code.syscall_redo
    → (ret ≡ Code.syscall_redo)
      × (any_of (inside l Fn.exit) pcs ≡ false)
      × (any_of (is_unsafe l) pcs ≡ false)
unfolding scan any_of
scan-redo l mode uc trap ret [] nv h = ground arith
scan-redo l mode uc trap ret (pc ∷ pcs) nv h =
    elim (Verdict-cases (treat_buf l mode uc trap ret pc)) [
      | inl (c, e) ↦ absurd (ground (arith, stop-ne-redo l mode uc trap ret pc))
      | inr (r, e) ↦
          ground (arith, round-redo l mode uc trap ret pc, scan-redo l mode uc trap r pcs)
    ]

-- Outside the disk interrupt, the user is asked to redo a system call only if the process cooperates
-- (or is unknown) and no function of the stack is `exit` or one of the unsafe functions.
pub after_treatment_buf-redo :
    (l : Layout) (mode : Mode) (uc : ℤ) (pcs : List ℕ)
    → any_of (inside l Fn.virtio_disk_intr) pcs ≡ false
    → after_treatment_buf l mode uc pcs ≡ Code.syscall_redo
    → (truthy uc ≡ true)
      × (any_of (inside l Fn.exit) pcs ≡ false)
      × (any_of (is_unsafe l) pcs ≡ false)
unfolding after_treatment_buf
after_treatment_buf-redo l mode uc pcs nv h = ground (
  arith,
  scan-redo l mode uc (identify_nmi_occurred_trap l pcs)
      (if truthy uc then Code.syscall_redo else Code.syscall_fail) pcs nv,
)
