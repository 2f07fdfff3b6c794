-- ===== src/Tracker.antt =====
-- kernel/mlist_tracker.c: finding the broken object, calling its recovery handler, and going on by
-- what the handler returns; kernel/nmi_handle.c: the queue of the processes that met an error.
pub mod Route
pub mod Nmi
pub mod Queue
pub mod Rescue
