-- ===== src/Policy/Inode.antt =====
-- kernel/recovery_handler_inode.c: the Fail-Stop test and the After-Treatment of struct inode.
use ev.Prelude.{
  ℕ, ◌≡◌, Bool, true, false, ◌&&◌, ◌||◌, List, [], ◌∷◌, if◌then◌else◌, arith, not, ◌==◌,
}
use ev.Prelude.Int.{ℤ}
use ev.Policy.{
  Code, Mode, Fn, Layout, inside, is_conservative, Verdict, stop, go, scan, any_of, truthy,
  is_enabled,
}

-- What `check_fail_stop` reads of an inode of the old cache.
pub record Inode : Type 0 where
  pub addr : ℕ
  pub type : ℕ
  pub inum : ℕ

abbrev pub t_device : ℕ
t_device = 3

abbrev pub rootino : ℕ
rootino = 1

unfoldable pub is_unsafe_inode : Layout → ℕ → Bool
unfolding inside
is_unsafe_inode l pc =
    inside l Fn.create pc
    || inside l Fn.idup pc
    || inside l Fn.iput pc
    || inside l Fn.iupdate pc
    || inside l Fn.sys_link pc
    || inside l Fn.sys_open pc
    || inside l Fn.sys_unlink pc
    || inside l Fn.writei pc

-- The loop over the old cache with its two flags, and the tests after it.
unfoldable pub misses : ℕ → Bool → Bool → List Inode → Bool
misses broken is_tdev is_root [] = not is_tdev || not is_root
misses broken is_tdev is_root (ip ∷ ips) =
    misses broken
      (if ip.addr == broken then is_tdev else if ip.type == t_device then true else is_tdev)
      (if ip.addr == broken
        then is_root
        else if ip.type == t_device
        then is_root
        else if ip.inum == rootino
        then true
        else is_root)
      ips

unfoldable pub check_fail_stop : Layout → Mode → ℕ → List Inode → List ℕ → Bool
unfolding is_unsafe_inode misses any_of
check_fail_stop l mode broken ips pcs =
    if is_conservative mode && any_of (is_unsafe_inode l) pcs
    then true
    else misses broken false false ips

unfoldable pub treat_inode : Layout → ℤ → Bool → Code → ℕ → Verdict
unfolding inside is_enabled truthy
treat_inode l uc fp ret pc =
    if inside l Fn.sys_close pc
    then go Code.syscall_success
    else if inside l Fn.sys_unlink pc
    then go
        (if truthy uc then (if fp then Code.reopen_syscall_redo else Code.syscall_redo) else ret)
    else if inside l Fn.sys_chdir pc
        || inside l Fn.sys_fstat pc
        || inside l Fn.sys_link pc
        || inside l Fn.sys_read pc
    then go (if is_enabled uc then Code.reopen_syscall_redo else Code.syscall_fail)
    else if inside l Fn.idup pc
    then stop Code.process_kill
    else go ret

-- `fp` says that a file of the broken inode was found.
unfoldable pub after_treatment_inode : Layout → ℤ → Bool → List ℕ → Code
unfolding scan treat_inode
after_treatment_inode l uc fp pcs =
    scan (treat_inode l uc fp) (if is_enabled uc then Code.syscall_redo else Code.syscall_fail) pcs

-- Whether a sound inode passes a test.
unfoldable pub any_sound : ℕ → (Inode → Bool) → List Inode → Bool
any_sound broken p [] = false
any_sound broken p (ip ∷ ips) = (not (ip.addr == broken) && p ip) || any_sound broken p ips

abbrev pub is_device : Inode → Bool
is_device ip = ip.type == t_device

abbrev pub is_root_dir : Inode → Bool
is_root_dir ip = not (ip.type == t_device) && ip.inum == rootino

misses_lem :
    (broken : ℕ) (d r : Bool) (ips : List Inode)
    → misses broken d r ips
      ≡ (not (d || any_sound broken is_device ips) || not (r || any_sound broken is_root_dir ips))
unfolding misses any_sound
misses_lem broken d r [] = ground arith
misses_lem broken d r (ip ∷ ips) = ground (
  arith,
  misses_lem broken (if ip.addr == broken then d else if ip.type == t_device then true else d)
      (if ip.addr == broken
        then r
        else if ip.type == t_device
        then r
        else if ip.inum == rootino
        then true
        else r)
      ips,
)

-- The inode handler stops the system exactly when in the conservative mode an unsafe function is on
-- the stack, or the sound inodes of the cache hold no device or no root directory.
pub check_fail_stop_iff :
    (l : Layout) (mode : Mode) (broken : ℕ) (ips : List Inode) (pcs : List ℕ)
    → check_fail_stop l mode broken ips pcs ≡ (
        (is_conservative mode && any_of (is_unsafe_inode l) pcs)
        || not (any_sound broken is_device ips)
        || not (any_sound broken is_root_dir ips))
unfolding check_fail_stop
check_fail_stop_iff l mode broken ips pcs = ground (arith, misses_lem broken false false ips)
