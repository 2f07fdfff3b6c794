-- ===== src/RecoveryLock/Index.antt =====
-- kernel/recovery_locking.c: which flag belongs to which buffer, file and inode.
pub mod Flags
use ev.Prelude.{
  ℕ, zero, suc, ◌+◌, ◌≡◌, Bool, true, false, List, [], ◌∷◌, Option, none, some, ◌==◌, if◌then◌else◌,
  map,
}
use ev.Params.{nbuf, nfile, ninode}

abbrev pub rl_flag_bcache : ℕ
rl_flag_bcache = 1

abbrev pub rl_flag_cons : ℕ
rl_flag_cons = 2

abbrev pub rl_flag_ftable : ℕ
rl_flag_ftable = 3

abbrev pub rl_flag_icache : ℕ
rl_flag_icache = 4

abbrev pub rl_flag_kmem : ℕ
rl_flag_kmem = 5

abbrev pub rl_flag_log : ℕ
rl_flag_log = 6

abbrev pub rl_flag_pipe : ℕ
rl_flag_pipe = 7

abbrev pub rl_flag_pr : ℕ
rl_flag_pr = 8

abbrev pub rl_flag_buf : ℕ
rl_flag_buf = 9

abbrev pub rl_flag_file : ℕ
rl_flag_file = 10

abbrev pub rl_flag_inode : ℕ
rl_flag_inode = 11

abbrev pub last_flag_wo_idx : ℕ
last_flag_wo_idx = 8

abbrev pub rl_nflags : ℕ
rl_nflags = 8 + nbuf + nfile + ninode + 1

-- `RL_FLAG_BUF`, `RL_FLAG_FILE` and `RL_FLAG_INODE`.
pub data Kind : Type 0 where
  buf file inode : Kind

-- `struct recovery_lock_idx`.
pub record Idx : Type 0 where
  pub flag : ℕ
  pub addr : ℕ

pub record Indexes : Type 0 where
  pub buf_idx : List Idx
  pub file_idx : List Idx
  pub inode_idx : List Idx

-- The loop of `init_recovery_lock_idx` over one array, from element `i` on.
unfoldable pub index_from : ℕ → ℕ → (ℕ → ℕ) → ℕ → List Idx
index_from zero i at first = []
index_from (suc k) i at first =
    record { flag = first + i; addr = at i } ∷ index_from k (i + 1) at first

-- The arguments are the addresses of `bcache.buf[i]`, `ftable->file[i]` and `icache->inode[i]`.
unfoldable pub init_recovery_lock_idx : (ℕ → ℕ) → (ℕ → ℕ) → (ℕ → ℕ) → Indexes
init_recovery_lock_idx buf_at file_at inode_at = record {
  buf_idx = index_from nbuf 0 buf_at (last_flag_wo_idx + 1);
  file_idx = index_from nfile 0 file_at (last_flag_wo_idx + nbuf);
  inode_idx = index_from ninode 0 inode_at (last_flag_wo_idx + nbuf + nfile);
}

unfoldable pub search_idx : ℕ → List Idx → Option ℕ
search_idx addr [] = none
search_idx addr (e ∷ es) = if e.addr == addr then some e.flag else search_idx addr es

abbrev pub table : Kind → Indexes → List Idx
table buf x = x.buf_idx
table file x = x.file_idx
table inode x = x.inode_idx

-- `none` is -1.
unfoldable pub search_recovery_idx : Kind → ℕ → Indexes → Option ℕ
search_recovery_idx k addr x = search_idx addr (table k x)

-- Every entry of the broken buffer gets the new address.
unfoldable pub replace_addr : ℕ → ℕ → List Idx → List Idx
replace_addr broken new [] = []
replace_addr broken new (e ∷ es) =
    (if e.addr == broken then record e { addr = new } else e) ∷ replace_addr broken new es

unfoldable pub readdress : ℕ → (ℕ → ℕ) → List Idx → List Idx
readdress i at [] = []
readdress i at (e ∷ es) = record e { addr = at i } ∷ readdress (i + 1) at es

-- The file and inode tables are filled again from the tables that now stand; `file_at` and
-- `inode_at` are their addresses.
unfoldable pub update_recovery_lock_idx : (ℕ → ℕ) → (ℕ → ℕ) → Kind → ℕ → ℕ → Indexes → Indexes
update_recovery_lock_idx file_at inode_at buf broken new x = record x {
  buf_idx = replace_addr broken new x.buf_idx;
}
update_recovery_lock_idx file_at inode_at file broken new x = record x {
  file_idx = readdress 0 file_at x.file_idx;
}
update_recovery_lock_idx file_at inode_at inode broken new x = record x {
  inode_idx = readdress 0 inode_at x.inode_idx;
}
