-- ===== src/Lib.antt =====
-- Ev6: an xv6 kernel for RISC-V that recovers from memory errors. When a non-maskable interrupt (NMI)
-- reports a broken address, the kernel finds the object at the address, builds it again from what
-- else it knows, and ends the system call of each process that met the error by a policy.
--
-- The parts, with the files of the repository and of this development:
-- * kernel/trans.c, Trans.antt: transactions protect the gap between a structure and its duplicate.
--   A process has a counter for each of the log, the page tables and the free pages;
--   `check_and_handle_trans_*` undoes a transaction that an error broke off. Trans/Invariant.antt,
--   Trans/Nesting.antt and Trans/Rollback.antt hold the theorems.
-- * kernel/recovery_locking.c, RecoveryLock: recovery critical sections. Each object that can be
--   recovered has a flag; `enter_recovery_critical_section` counts the processes that use it and puts
--   the flag in the history of the process, and the recovery lock of the flag keeps them out while it
--   is rebuilt. RecoveryLock/Index.antt has the tables from addresses to flags,
--   RecoveryLock/History.antt the histories, RecoveryLock/Locks.antt the functions on the locks,
--   RecoveryLock/Waits.antt the waiting of a file's recovery.
-- * kernel/recovery_handler*.c, Policy: from the return addresses on the kernel stack of the process
--   the handlers decide whether to stop the system and how the system call ends. A layout of the
--   kernel (kernel/func_pointer.c: where each function starts and ends) is an argument, since the
--   linker fixes it. `identify_nmi_occurred_trap` of kernel/kerneltrapret.c is in Policy/Trap.antt.
-- * kernel/mlist_tracker.c and kernel/nmi_handle.c, Tracker: the switches on the handlers' results
--   (Tracker/Route.antt), the queue of the processes that met an error and the list of recovered
--   objects (Tracker/Queue.antt), the choice of the handler (Tracker/Nmi.antt), and the scan of the
--   stack for an interrupt in an old section (Tracker/Rescue.antt).
-- * kernel/log.c, Log.antt: the redo log under the file system, which calls recovery sections and the
--   log transaction. Log/Disk.antt has the loops, Log/Header.antt the header block, Log/Crash.antt the
--   states of the disk during a commit, Log/Recover.antt the next start of the kernel, and
--   Log/Absorb.antt the entries and the reserved space.
-- * kernel/pipe.c, Pipe.antt: the ring of a pipe; Pipe/Fifo.antt has it as a queue. What `copyin` and
--   `copyout` give for each byte is an argument.
-- * kernel/bio.c, Bcache.antt: the buffer cache, a list of buffers in the order of their last release,
--   with the sleep locks of kernel/sleeplock.c (Sleeplock.antt). Bcache/Search.antt says what `bget`
--   changes, Bcache/Unique.antt is about the buffers of one block, Bcache/Reuse.antt about what `bread`
--   gives.
-- * kernel/fs.c, Fs.antt: the allocation of blocks by the free map, whose bits are in Fs/Bits.antt.
--   Icache.antt: the cache of inodes, also in kernel/fs.c.
-- * kernel/proc.c, Proc.antt: the states of the processes. Proc/Step.antt has their steps as a
--   relation, Proc/Wakeup.antt, Proc/Calm.antt and Proc/Reap.antt are about `exit` and `wait`.
-- * kernel/string.c, Strings.antt: copies and comparisons of bytes in a memory.
-- * kernel/recovery_handlers_MM.c, Rebuild.antt: the Free-List and `struct kmem` built again from the
--   M-List of free pages; Rebuild/Chain.antt says which pages the new list leads through. The code of
--   the After-Treatment is in Policy/Memory.antt, with that of pipes.
-- * kernel/file.c and the descriptors of kernel/sysfile.c, Files.antt: the counts of files, which
--   Files/Count.antt compares with the descriptors that lead to a file.
-- * kernel/recovery_handler_file.c, FileRecovery.antt: the table of files built again without the broken
--   entry. FileRecovery/Found.antt is about the inode that is found by its count, FileRecovery/Whole.antt
--   about the whole handler.
-- * kernel/recovery_handler_inode.c, InodeRecovery.antt: files, descriptors and working directories after
--   the cache of inodes has moved without its broken entry, InodeRecovery/Solved.antt.
-- * kernel/user_coop.c, UserCoop.antt: which processes can redo a system call.
-- * kernel/mlist.c, MList.antt: the M-Lists, rings of nodes in a memory of addresses, with
--   `search_mlist` of kernel/mlist_tracker.c. MList/Chain.antt says what a ring is, MList/Refine.antt
--   compares the functions with the list of addresses, MList/Scan.antt has the scan of
--   `register_memobj`, and MList/View.antt the list of addresses alone, which Trans and Kalloc use.
--   kernel/mlist_pagetable.c, MList/Pagetable.antt: the M-List of page tables, an array over pages.
-- * kernel/kalloc.c, Kalloc.antt: the allocator of pages, which calls recovery sections, transactions
--   and the M-List of free pages; Kalloc/Free.antt has its invariant.
--
-- * kernel/vm.c, kernel/ptdup.c and kernel/recovery_handler_pagetable.c, Vm.antt: page tables, their
--   duplicates and the page tables built again. Vm/Ptdup.antt has the duplicates, with
--   Vm/Ptdup/Delete.antt and Vm/Ptdup/Clear.antt for what is taken out of them, Vm/Ptdup/Pack.antt for
--   the fields of their words, and Vm/Ptdup/Init.antt for a new page table. Vm/Walk.antt has the way from
--   an address to its entry, Vm/Uvm.antt and Vm/Uvm/Runs.antt the memory of a process, Vm/Copy.antt the
--   copies to and from it (Vm/Copy/In.antt: byte by byte). Vm/Mirror.antt says when duplicates agree with
--   the tables, Vm/Walk/Grow.antt that `walk` keeps that, and Vm/Recovery.antt has the handler, whose
--   levels are the subject of Vm/Recovery/Rebuilt.antt, Vm/Recovery/Level1.antt and
--   Vm/Recovery/Level0.antt. The codes of the handler are in Policy/Pagetable.antt.
-- * kernel/spinlock.c, Spinlock.antt: spinlocks and the nesting of sections without interrupts, which
--   Spinlock/Nest.antt is about.
--
-- A state of C variables is a record, a C function is a function from a state to a `Result`: `ok` with
-- the new state, `panic` where the kernel stops, `fault` for an access outside an array or through a
-- null pointer, `asleep` where the process sleeps or spins, of which no state is kept; in MList it also
-- stands for a loop whose rounds did not suffice. An `int` that is used as a number below zero is an
-- integer (Prelude/Int.antt); no counter comes near 2^31, so they do not wrap. A loop over an array or
-- a list is a recursion on that list. The loops over the nodes of an M-List take a number of rounds:
-- more rounds than nodes in the ring, or than filled nodes in the pages to scan, are enough. The loop of
-- `balloc` over the blocks of the free map takes as many rounds as the size of the disk needs, and those
-- of kernel/vm.c as many as there are pages or bytes. `PTDS_delete` can make its list longer while it
-- goes through it; its rounds are an argument, and `asleep` stands for too few.
--
-- Not modelled: the rebuilding of the other objects inside the handlers, directories
-- and the contents of inodes, what the pages of a process hold outside of the copies, devices, and the user
-- programs. The inner spinlocks make each function one step, so interleavings are sequences of whole
-- functions.
pub mod Prelude
pub mod Params
pub mod Bcache
pub mod FileRecovery
pub mod Files
pub mod Fs
pub mod Icache
pub mod InodeRecovery
pub mod Kalloc
pub mod Log
pub mod MList
pub mod Pipe
pub mod Policy
pub mod Proc
pub mod Rebuild
pub mod RecoveryLock
pub mod Sleeplock
pub mod Spinlock
pub mod Strings
pub mod Tracker
pub mod Trans
pub mod UserCoop
pub mod Vm
