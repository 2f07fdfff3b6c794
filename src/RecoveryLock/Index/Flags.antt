-- ===== src/RecoveryLock/Index/Flags.antt =====
-- The flags that `init_recovery_lock_idx` gives, and what recovery keeps of them.
use ev.Prelude.{
  ℕ, zero, suc, ◌+◌, ◌<◌, ◌≡◌, ◌↔◌, refl, List, [], ◌∷◌, none, some, ◌==◌, ltb, leb, ◌&&◌,
  if◌then◌else◌, arith, Bool-cases, inl, inr,
}
use ev.Params.{nbuf, nfile, ninode}
use ev.RecoveryLock.Index.{
  Kind, Idx, Indexes, index_from, init_recovery_lock_idx, search_idx, search_recovery_idx,
  replace_addr, update_recovery_lock_idx,
}

abbrev pub Injective : (ℕ → ℕ) → Type 0
Injective at = (i j : ℕ) → at i ≡ at j → i ≡ j

search-index_from :
    (k i : ℕ) (at : ℕ → ℕ) (first j : ℕ)
    → Injective at
    → search_idx (at j) (index_from k i at first)
      ≡ (if leb i j && ltb j (i + k) then some (first + j) else none)
unfolding search_idx index_from
search-index_from zero i at first j inj = ground arith
search-index_from (suc k) i at first j inj = elim (Bool-cases (at i == at j)) [
  | inl e ↦ ground (arith, inj i j)
  | inr e ↦ ground (arith, search-index_from k (i + 1) at first j inj)
]

module _ (buf_at file_at inode_at : ℕ → ℕ) where
  abbrev start : Indexes
  start = init_recovery_lock_idx buf_at file_at inode_at

  -- With distinct addresses in each table, element `i` of a table is found under the table's first
  -- flag plus `i`, and an address beyond the table is not found.
  pub search-init :
      Injective buf_at
      → Injective file_at
      → Injective inode_at
      → (i : ℕ)
      → (search_recovery_idx Kind.buf (buf_at i) start
          ≡ (if ltb i nbuf then some (9 + i) else none))
        × (search_recovery_idx Kind.file (file_at i) start
            ≡ (if ltb i nfile then some (38 + i) else none))
        × (search_recovery_idx Kind.inode (inode_at i) start
            ≡ (if ltb i ninode then some (138 + i) else none))
  unfolding search_recovery_idx init_recovery_lock_idx
  search-init bi fi ni i = (
    rw (search-index_from nbuf 0 buf_at 9 i bi) (ground arith),
    rw (search-index_from nfile 0 file_at 38 i fi) (ground arith),
    rw (search-index_from ninode 0 inode_at 138 i ni) (ground arith),
  )

  -- A buffer and a file have the same recovery lock exactly when they are the last buffer and the
  -- first file.
  pub buf_file_share :
      Injective buf_at
      → Injective file_at
      → Injective inode_at
      → (i j : ℕ) → i < nbuf
      → j < nfile
      → (search_recovery_idx Kind.buf (buf_at i) start
          ≡ search_recovery_idx Kind.file (file_at j) start)
        ↔ ((i ≡ 29) × (j ≡ 0))
  buf_file_share bi fi ni i j hi hj = (
    λ e. ground (arith, search-init bi fi ni i, search-init bi fi ni j),
    λ e. ground (arith, search-init bi fi ni i, search-init bi fi ni j),
  )

search-replace_addr :
    (es : List Idx) (broken new a : ℕ)
    → search_idx new es ≡ none
    → search_idx a (replace_addr broken new es)
      ≡ (if a == new then search_idx broken es else if a == broken then none else search_idx a es)
unfolding search_idx replace_addr
search-replace_addr [] broken new a fresh = ground arith
search-replace_addr (e ∷ es) broken new a fresh =
    ground (arith, search-replace_addr es broken new a)

-- When a buffer is replaced by one whose address is not in the table, the new buffer has the flag of
-- the broken one, the broken one has none, and every other buffer, file and inode keeps its own.
pub search-update_buf :
    (file_at inode_at : ℕ → ℕ) (broken new a : ℕ) (x : Indexes)
    → search_recovery_idx Kind.buf new x ≡ none
    → let y = update_recovery_lock_idx file_at inode_at Kind.buf broken new x in
      (search_recovery_idx Kind.buf a y ≡ (
        if a == new
        then search_recovery_idx Kind.buf broken x
        else if a == broken
        then none
        else search_recovery_idx Kind.buf a x))
      × (search_recovery_idx Kind.file a y ≡ search_recovery_idx Kind.file a x)
      × (search_recovery_idx Kind.inode a y ≡ search_recovery_idx Kind.inode a x)
unfolding search_recovery_idx update_recovery_lock_idx
search-update_buf file_at inode_at broken new a x fresh =
    (search-replace_addr x.buf_idx broken new a fresh, refl, refl)
