-- ===== src/Tracker/Route.antt =====
-- kernel/mlist_tracker.c: how `mlist_tracker` takes what each recovery handler returns.
pub mod Accepts
mod Tests
use ev.Prelude.{ℕ, ◌≡◌, refl, Bool, true, false, List, [], ◌∷◌, if◌then◌else◌, arith}
use ev.Policy.{Code}

-- `recovery_success`, `recovery_success_intr` with the interrupt, `fail_stop`, and `bad`, which
-- panics with a message.
pub data Route : Type 0 where
  recovery_success : Route
  recovery_success_intr : (irq : ℕ) → Route
  stops : Route
  bad : Route

abbrev pub uart0_irq : ℕ
uart0_irq = 10

abbrev pub virtio0_irq : ℕ
virtio0_irq = 1

-- struct kmem
unfoldable pub route_kmem : Code → Route
route_kmem Code.syscall_fail = recovery_success
route_kmem Code.syscall_success = recovery_success
route_kmem Code.syscall_redo = recovery_success
route_kmem Code.process_kill = recovery_success
route_kmem Code.fail_stop = stops
route_kmem _ = bad

-- struct run
unfoldable pub route_run : Code → Route
route_run Code.syscall_fail = recovery_success
route_run Code.syscall_success = recovery_success
route_run Code.syscall_redo = recovery_success
route_run Code.process_kill = recovery_success
route_run Code.fail_stop = stops
route_run _ = bad

-- A page table; the interrupt number is the one of the round before.
unfoldable pub route_pagetable : ℕ → Code → Route
route_pagetable irq Code.syscall_fail = recovery_success
route_pagetable irq Code.syscall_success = recovery_success
route_pagetable irq Code.syscall_redo = recovery_success
route_pagetable irq Code.process_kill = recovery_success
route_pagetable irq Code.return_to_kernel = recovery_success_intr irq
route_pagetable irq Code.fail_stop = stops
route_pagetable irq _ = bad

-- struct pr
unfoldable pub route_pr : Code → Route
route_pr Code.process_kill = recovery_success
route_pr Code.return_to_user = recovery_success_intr uart0_irq
route_pr Code.return_to_kernel = recovery_success_intr uart0_irq
route_pr Code.fail_stop = stops
route_pr _ = bad

-- struct buf
unfoldable pub route_buf : Code → Route
route_buf Code.syscall_success = recovery_success
route_buf Code.syscall_fail = recovery_success
route_buf Code.syscall_redo = recovery_success
route_buf Code.process_kill = recovery_success
route_buf Code.return_to_user = recovery_success_intr virtio0_irq
route_buf Code.return_to_kernel = recovery_success_intr virtio0_irq
route_buf Code.fail_stop = stops
route_buf _ = bad

-- struct file
unfoldable pub route_file : Code → Route
route_file Code.syscall_fail = recovery_success
route_file Code.syscall_success = recovery_success
route_file Code.reopen_syscall_fail = recovery_success
route_file Code.reopen_syscall_redo = recovery_success
route_file Code.process_kill = recovery_success
route_file Code.fail_stop = stops
route_file _ = bad

-- struct inode
unfoldable pub route_inode : Code → Route
route_inode Code.syscall_fail = recovery_success
route_inode Code.syscall_success = recovery_success
route_inode Code.syscall_redo = recovery_success
route_inode Code.reopen_syscall_fail = recovery_success
route_inode Code.reopen_syscall_redo = recovery_success
route_inode Code.process_kill = recovery_success
route_inode Code.fail_stop = stops
route_inode _ = bad

-- struct devsw
unfoldable pub route_devsw : Code → Route
route_devsw Code.syscall_fail = recovery_success
route_devsw Code.syscall_success = recovery_success
route_devsw Code.syscall_redo = recovery_success
route_devsw Code.process_kill = recovery_success
route_devsw Code.fail_stop = stops
route_devsw _ = bad

-- struct log
unfoldable pub route_log : Code → Route
route_log Code.syscall_fail = recovery_success
route_log Code.syscall_success = recovery_success
route_log Code.syscall_redo = recovery_success
route_log Code.process_kill = recovery_success
route_log Code.fail_stop = stops
route_log _ = bad

-- struct cons
unfoldable pub route_cons : Code → Route
route_cons Code.syscall_fail = recovery_success
route_cons Code.syscall_redo = recovery_success
route_cons Code.return_to_user = recovery_success_intr uart0_irq
route_cons Code.return_to_kernel = recovery_success_intr uart0_irq
route_cons Code.fail_stop = stops
route_cons _ = bad

-- struct pipe
unfoldable pub route_pipe : Code → Route
route_pipe Code.syscall_fail = recovery_success
route_pipe Code.syscall_success = recovery_success
route_pipe Code.syscall_redo = recovery_success
route_pipe Code.process_kill = recovery_success
route_pipe Code.fail_stop = stops
route_pipe _ = bad

-- The two single spinlocks.
unfoldable pub route_locks : ℕ → Code → Route
route_locks irq Code.syscall_fail = recovery_success
route_locks irq Code.process_kill = recovery_success
route_locks irq Code.syscall_redo = recovery_success
route_locks irq Code.return_to_user = recovery_success_intr irq
route_locks irq Code.return_to_kernel = recovery_success_intr irq
route_locks irq Code.fail_stop = stops
route_locks irq _ = bad

-- An address found in the list of recovered objects, by the code recorded for it.
unfoldable pub route_recovered : Code → Route
route_recovered Code.pipe_code = recovery_success
route_recovered Code.syscall_fail = recovery_success
route_recovered Code.syscall_success = recovery_success
route_recovered Code.syscall_redo = recovery_success
route_recovered Code.process_kill = recovery_success
route_recovered _ = bad

-- The last switch, on the code of the first process.
pub data Finish : Type 0 where
  return_syscall_result : Code → Finish
  kill_process return_user return_kernel invalid : Finish

unfoldable pub finish : Code → Finish
finish Code.syscall_success = return_syscall_result Code.syscall_success
finish Code.syscall_fail = return_syscall_result Code.syscall_fail
finish Code.syscall_redo = return_syscall_result Code.syscall_redo
finish Code.reopen_syscall_fail = return_syscall_result Code.reopen_syscall_fail
finish Code.reopen_syscall_redo = return_syscall_result Code.reopen_syscall_redo
finish Code.process_kill = kill_process
finish Code.return_to_user = return_user
finish Code.return_to_kernel = return_kernel
finish _ = invalid
