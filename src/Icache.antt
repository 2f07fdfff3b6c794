-- ===== src/Icache.antt =====
-- kernel/fs.c: the cache of inodes. An inode is its address, and `table` has those of `icache->inode`.
-- Of an inode the fields that say whose it is are kept; `itrunc` and `iupdate` are left out, so `iput`
-- is not here.
pub mod Unique
mod Tests
use ev.Prelude.{
  ℕ, zero, suc, ◌+◌, ◌≡◌, Bool, true, false, not, ◌&&◌, List, [], ◌∷◌, Option, none, some, ◌==◌,
  if◌then◌else◌, Result, ok, panic, ◌>>=◌, upd,
}
use ev.RecoveryLock.Index.{Kind}
use ev.RecoveryLock.Locks
use ev.RecoveryLock.Locks.{
  Caller, enter_recovery_critical_section_nodes, exit_recovery_critical_section_nodes,
}

-- `struct inode`.
pub record Inode : Type 0 where
  pub dev : ℕ
  pub inum : ℕ
  pub ref : ℕ
  pub valid : Bool

pub record State : Type 0 where
  pub locks : Locks.State
  pub inodes : ℕ → Inode
  pub table : List ℕ

unfoldable pub is_cached : ℕ → ℕ → Inode → Bool
is_cached dev inum i = not (i.ref == 0) && i.dev == dev && i.inum == inum

-- `empty` remembers the first free entry.
unfoldable pub remember : Option ℕ → ℕ → State → Option ℕ
remember none i s = if (s.inodes i).ref == 0 then some i else none
remember (some e) i s = some e

unfoldable pub idup : ℕ → State → State
unfolding upd
idup i s = record s { inodes = upd s.inodes i (record (s.inodes i) { ref = (s.inodes i).ref + 1 }) }

unfoldable pub recycle_inode : ℕ → ℕ → ℕ → State → State
unfolding upd
recycle_inode dev inum i s = record s {
  inodes = upd s.inodes i (record { dev = dev; inum = inum; ref = 1; valid = false });
}

-- The end of `iget`; without a free entry, the section of the address 0 is entered before `panic`.
unfoldable pub iget_empty : Caller → ℕ → ℕ → Option ℕ → State → Result (ℕ × State)
unfolding recycle_inode
iget_empty c dev inum none s =
    enter_recovery_critical_section_nodes c Kind.inode 0 s.locks >>= λ l. panic
iget_empty c dev inum (some e) s =
    enter_recovery_critical_section_nodes c Kind.inode e s.locks >>= λ l.
    ok (e, recycle_inode dev inum e (record s { locks = l }))

-- The loop of `iget`. An inode that was found stays in its section.
unfoldable pub iget_from : Caller → ℕ → ℕ → Option ℕ → List ℕ → State → Result (ℕ × State)
unfolding is_cached remember idup iget_empty
iget_from c dev inum empty [] s = iget_empty c dev inum empty s
iget_from c dev inum empty (i ∷ is) s =
    enter_recovery_critical_section_nodes c Kind.inode i s.locks >>= λ l.
    if is_cached dev inum (s.inodes i)
    then ok (i, idup i (record s { locks = l }))
    else exit_recovery_critical_section_nodes c Kind.inode i l >>= λ l'.
        iget_from c dev inum (remember empty i s) is (record s { locks = l' })

unfoldable pub iget : Caller → ℕ → ℕ → State → Result (ℕ × State)
unfolding iget_from
iget c dev inum s = iget_from c dev inum none s.table s
