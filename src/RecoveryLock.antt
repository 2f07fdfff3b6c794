-- ===== src/RecoveryLock.antt =====
-- kernel/recovery_locking.c: the recovery critical sections (R.C.S.). Kernel code that touches a
-- recoverable object enters the section of the object's flag and leaves it again; a recovery handler
-- holds the section's lock, and nobody else enters while it does.
pub mod Index
pub mod History
pub mod Locks
pub mod Waits
