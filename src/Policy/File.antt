-- ===== src/Policy/File.antt =====
-- kernel/recovery_handler_file.c: the Fail-Stop test and the After-Treatment of struct file.
use ev.Prelude.{
  ℕ, ◌≡◌, ◌≢◌, Bool, true, false, ◌&&◌, ◌||◌, List, [], ◌∷◌, if◌then◌else◌, arith, not, ◌==◌, ◌↔◌,
}
use ev.Prelude.Int.{ℤ, is_pos}
use ev.Policy.{
  Code, Mode, Fn, Layout, inside, is_conservative, Verdict, stop, go, scan, any_of, Apart,
  is_enabled,
}

unfoldable pub is_fatal_file : Layout → Mode → ℕ → Bool
is_fatal_file l mode pc =
    inside l Fn.sys_open pc
    || (is_conservative mode
        && (inside l Fn.fork pc || inside l Fn.pipealloc pc || inside l Fn.sys_write pc))

unfoldable pub check_fail_stop : Layout → Mode → List ℕ → Bool
unfolding is_fatal_file inside is_conservative
check_fail_stop l mode [] = false
check_fail_stop l mode (pc ∷ pcs) =
    if is_fatal_file l mode pc then true else check_fail_stop l mode pcs

unfoldable pub treat_file : Layout → ℤ → Code → ℕ → Verdict
unfolding inside is_enabled
treat_file l uc ret pc =
    if inside l Fn.sys_close pc
    then go Code.syscall_success
    else if inside l Fn.exit pc
    then stop Code.process_kill
    else if is_enabled uc && inside l Fn.sys_write pc
    then go Code.reopen_syscall_fail
    else go ret

-- The return value of `after_treatment`; `pipe` says that a pipe's file was found beside the broken
-- one.
unfoldable pub treatment_code : Layout → ℤ → Bool → List ℕ → Code
unfolding scan treat_file
treatment_code l uc pipe pcs =
    scan (treat_file l uc)
      (if pipe
        then Code.syscall_fail
        else if is_enabled uc
        then Code.reopen_syscall_redo
        else Code.syscall_fail)
      pcs

-- Whether `after_treatment` ends the log operation of the system call.
unfoldable pub ends_op : Bool → ℤ → Bool
ends_op pipe outstanding = not pipe && is_pos outstanding

unfoldable pub is_reopen : Code → Bool
is_reopen Code.reopen_syscall_fail = true
is_reopen Code.reopen_syscall_redo = true
is_reopen _ = false

-- Whether it drops the reference to the inode of the broken file; `num` is the number of descriptors
-- that pointed to the file, `b_ip` whether its inode was found.
unfoldable pub puts_inode : Code → ℕ → Bool → Bool → Bool
unfolding is_reopen
puts_inode ret num pipe b_ip = (not (is_reopen ret) || num == 1) && not pipe && b_ip

-- What a recovery of a file ends with: its code, and the two calls that it makes.
unfoldable pub after_treatment : Layout → ℤ → Bool → ℤ → ℕ → Bool → List ℕ → Code × Bool × Bool
unfolding treatment_code ends_op puts_inode
after_treatment l uc pipe outstanding num b_ip pcs =
    let ret = treatment_code l uc pipe pcs in
    (ret, ends_op pipe outstanding, puts_inode ret num pipe b_ip)

scan-kill :
    (l : Layout) (uc : ℤ) (ret : Code) (pcs : List ℕ)
    → Apart l Fn.sys_close Fn.exit
    → ret ≢ Code.process_kill
    → (scan (treat_file l uc) ret pcs ≡ Code.process_kill) ↔ (any_of (inside l Fn.exit) pcs ≡ true)
unfolding scan any_of treat_file
scan-kill l uc ret [] apart nk = ground arith
scan-kill l uc ret (pc ∷ pcs) apart nk = ground (
  arith,
  apart pc,
  scan-kill l uc ret pcs apart nk,
  scan-kill l uc Code.syscall_success pcs apart (ground arith),
  scan-kill l uc Code.reopen_syscall_fail pcs apart (ground arith),
)

-- The recovery of a file kills the process exactly when `exit` is on its stack, whatever `sys_close`
-- or `sys_write` stand above or below, given that `sys_close` and `exit` do not overlap in memory.
pub treatment_code-kill :
    (l : Layout) (uc : ℤ) (pipe : Bool) (pcs : List ℕ)
    → Apart l Fn.sys_close Fn.exit
    → (treatment_code l uc pipe pcs ≡ Code.process_kill) ↔ (any_of (inside l Fn.exit) pcs ≡ true)
unfolding treatment_code
treatment_code-kill l uc pipe pcs apart = scan-kill l uc _ pcs apart (ground arith)
