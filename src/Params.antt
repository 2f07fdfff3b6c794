-- ===== src/Params.antt =====
-- kernel/param.h and the sizes of kernel/mlist.h and kernel/riscv.h, with the types that several
-- parts of the kernel share.
use ev.Prelude.{ℕ, ◌*◌, List}

abbrev pub nproc : ℕ
nproc = 64

abbrev pub nofile : ℕ
nofile = 16

abbrev pub nfile : ℕ
nfile = 100

abbrev pub ninode : ℕ
ninode = 50

abbrev pub maxopblocks : ℕ
maxopblocks = 10

abbrev pub logsize : ℕ
logsize = maxopblocks * 3

abbrev pub nbuf : ℕ
nbuf = maxopblocks * 3

abbrev pub nmi_queue_size : ℕ
nmi_queue_size = 5

-- DEPTH of kernel/mlist.h.
abbrev pub depth : ℕ
depth = 30

abbrev pub pgsize : ℕ
pgsize = 4096

-- `struct logheader` of kernel/log.h. The array is a list; a block number is a number.
pub record LogHeader : Type 0 where
  pub n : ℕ
  pub block : List ℕ
