-- ===== src/Fs.antt =====
-- kernel/fs.c: the allocation of blocks by the free map. A block gives its bytes; `bread`, `log_write`
-- and `brelse` of the blocks (Bcache, Log) are left out here.
pub mod Bits
pub mod Scan
pub mod Alloc
mod Tests
use ev.Prelude.{
  ℕ, zero, suc, ◌+◌, ◌-◌, ◌*◌, ◌/◌, ◌%◌, ◌≡◌, Bool, true, false, not, Option, none, some, ◌==◌, ltb,
  if◌then◌else◌, Result, ok, panic, fault, asleep, ◌>>=◌, upd,
}
use ev.Fs.Bits.{is_set, set_bit, clear_bit}

-- `size` and `bmapstart` of the super block.
pub record State : Type 0 where
  pub blocks : ℕ → ℕ → ℕ
  pub size : ℕ
  pub bmapstart : ℕ

-- BPB.
abbrev pub bpb : ℕ
bpb = 8192

-- BBLOCK.
abbrev pub bblock : ℕ → State → ℕ
bblock b s = b / bpb + s.bmapstart

unfoldable pub bzero : ℕ → State → State
unfolding upd
bzero bno s = record s { blocks = upd s.blocks bno (λ i. 0) }

-- `data[bi/8]` of the block of the free map for `b` is changed.
unfoldable pub change_byte : (ℕ → ℕ) → ℕ → ℕ → State → State
unfolding upd
change_byte f map_block i s = record s {
  blocks = upd s.blocks map_block (upd (s.blocks map_block) i (f (s.blocks map_block i)));
}

-- The inner loop of `balloc`, on a block `bytes` of the free map.
unfoldable pub scan : (rounds b bi size : ℕ) → (ℕ → ℕ) → Option ℕ
scan zero b bi size bytes = none
scan (suc k) b bi size bytes = elim (ltb (b + bi) size) [
  | false ↦ none
  | true ↦ elim (is_set (bi % 8) (bytes (bi / 8))) [
    | false ↦ some bi
    | true ↦ scan k b (suc bi) size bytes
  ]
]

unfoldable pub take : ℕ → ℕ → State → State
unfolding bzero change_byte
take b bi s = bzero (b + bi) (change_byte (set_bit (bi % 8)) (bblock b s) (bi / 8) s)

-- The outer loop; `asleep` when the rounds did not suffice.
unfoldable pub balloc_from : ℕ → ℕ → State → Result (ℕ × State)
unfolding scan take
balloc_from zero b s = asleep
balloc_from (suc k) b s = elim (ltb b s.size) [
  | false ↦ panic
  | true ↦ elim (scan bpb b 0 s.size (s.blocks (bblock b s))) [
    | some bi ↦ ok (b + bi, take b bi s)
    | none ↦ balloc_from k (b + bpb) s
  ]
]

unfoldable pub balloc : State → Result (ℕ × State)
unfolding balloc_from
balloc s = balloc_from (s.size / bpb + 2) 0 s

unfoldable pub bfree : ℕ → State → Result State
unfolding change_byte
bfree b s =
    let bi = b % bpb in
    if not (is_set (bi % 8) (s.blocks (bblock b s) (bi / 8)))
    then panic
    else ok (change_byte (clear_bit (bi % 8)) (bblock b s) (bi / 8) s)
