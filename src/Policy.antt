-- ===== src/Policy.antt =====
-- The After-Treatment policies of the recovery handlers (kernel/recovery_handler*.c): what a handler
-- reads from the call stack of the process that met the memory error, and the end it chooses.
pub mod Buf
pub mod Console
pub mod File
pub mod Inode
pub mod Log
pub mod Memory
pub mod Pagetable
pub mod Tests
pub mod Trap
use ev.Prelude.Int.{ℤ, pos, negsuc}
use ev.Prelude.{
  ℕ, ◌≡◌, ◌≢◌, ◌⊎◌, inl, inr, refl, Bool, true, false, ◌&&◌, ◌||◌, List, [], ◌∷◌, leb, ◌==◌,
  if◌then◌else◌, arith,
}

-- kernel/after-treatment.h; `failed` is the -1 that some handlers return, and `unset` the 0 with
-- which `mlist_tracker` starts.
pub data Code : Type 0 where
  unset failed : Code
  syscall_success syscall_fail syscall_redo : Code
  reopen_syscall_fail reopen_syscall_redo : Code
  fail_stop process_kill return_to_user return_to_kernel pipe_code : Code

-- `recovery_mode`.
pub data Mode : Type 0 where
  aggressive conservative : Mode

-- The functions that kernel/func_pointer.c gives the bounds of.
pub data Fn : Type 0 where
  begin_op bfree brelse clockintr commit consoleintr create devintr dirlink end_op exit : Fn
  fileclose fork freeproc fsinit idup install_trans iput iupdate kernelvec kerneltrap kvminit : Fn
  log_write nmivec panic_fn pipealloc procinit readsb sys_chdir sys_close sys_exec sys_fstat : Fn
  sys_link sys_open sys_pipe sys_read sys_sbrk sys_unlink sys_write usertrap : Fn
  uvmalloc uvmcopy uvmunmap virtio_disk_intr write_head write_log writei : Fn

pub record Range : Type 0 where
  pub start : ℕ
  pub end : ℕ

-- Where the linker put the functions.
abbrev pub Layout : Type 0
Layout = Fn → Range

-- `ISINSIDE(pc, f_start, f_end)`.
unfoldable pub inside : Layout → Fn → ℕ → Bool
inside l f pc = leb (l f).start pc && leb pc (l f).end

unfoldable pub is_conservative : Mode → Bool
is_conservative aggressive = false
is_conservative conservative = true

-- A C int used as a truth value.
unfoldable pub truthy : ℤ → Bool
truthy (pos n) = if n == 0 then false else true
truthy (negsuc n) = true

-- `uc_status == ENABLE`.
unfoldable pub is_enabled : ℤ → Bool
is_enabled (pos n) = n == 1
is_enabled (negsuc n) = false

-- One round of a loop over the return addresses: it returns from the function, or goes on with a
-- new value of `ret`.
pub data Verdict : Type 0 where
  stop go : Code → Verdict

unfoldable pub scan : (Code → ℕ → Verdict) → Code → List ℕ → Code
scan f ret [] = ret
scan f ret (pc ∷ pcs) = elim (f ret pc) [ stop c ↦ c | go r ↦ scan f r pcs ]

abbrev pub verdict_code : Verdict → Code
verdict_code (stop c) = c
verdict_code (go c) = c

pub Verdict-cases : (v : Verdict) → ((c : Code) × (v ≡ stop c)) ⊎ ((c : Code) × (v ≡ go c))
Verdict-cases (stop c) = inl (c, refl)
Verdict-cases (go c) = inr (c, refl)

-- A set of codes that the loop starts in and that no round leaves holds the result.
pub scan_inv :
    (P : Code → Bool) (f : Code → ℕ → Verdict) (ret : Code) (pcs : List ℕ)
    → ((r : Code) (pc : ℕ) → P r ≡ true → P (verdict_code (f r pc)) ≡ true)
    → P ret ≡ true
    → P (scan f ret pcs) ≡ true
unfolding scan
scan_inv P f ret [] keep h = h
scan_inv P f ret (pc ∷ pcs) keep h = elim (Verdict-cases (f ret pc)) [
  | inl (c, e) ↦ ground (arith, keep ret pc h)
  | inr (r, e) ↦ ground (arith, keep ret pc h, scan_inv P f r pcs keep)
]

-- Whether some return address passes a test.
unfoldable pub any_of : (ℕ → Bool) → List ℕ → Bool
any_of p [] = false
any_of p (pc ∷ pcs) = p pc || any_of p pcs

-- No address lies inside both functions.
abbrev pub Apart : Layout → Fn → Fn → Type 0
Apart l f g = (pc : ℕ) → inside l f pc ≡ true → inside l g pc ≡ false
