-- ===== src/Bcache.antt =====
-- kernel/bio.c: the buffer cache. A buffer is its address; `order` is the linked list from
-- `bcache.head.next` on, the most recently released first, without the head. The functions go through
-- the recovery sections of the cache and of the buffer. `virtio_disk_rw` is one transfer of a block.
pub mod Search
pub mod Unique
pub mod Reuse
mod Tests
use ev.Prelude.{
  ℕ, zero, suc, ◌+◌, ◌-◌, ◌%◌, ◌^◌, ◌≡◌, Bool, true, false, not, ◌&&◌, List, [], ◌∷◌, Option, none,
  some, ◌==◌, if◌then◌else◌, Result, ok, panic, fault, asleep, ◌>>=◌, upd,
}
use ev.RecoveryLock.Index.{Kind, rl_flag_bcache}
use ev.RecoveryLock.Locks
use ev.RecoveryLock.Locks.{
  Caller, enter_recovery_critical_section, enter_recovery_critical_section_nodes,
  exit_recovery_critical_section, exit_recovery_critical_section_nodes,
}
use ev.Sleeplock.{Sleeplock, acquiresleep, releasesleep, holdingsleep}
use ev.MList.View

-- `struct buf`; the data are the words of the block.
pub record Buf : Type 0 where
  pub valid : Bool
  pub dev : ℕ
  pub blockno : ℕ
  pub lock : Sleeplock
  pub refcnt : ℕ
  pub words : List ℕ

pub record State : Type 0 where
  pub locks : Locks.State
  pub bufs : ℕ → Buf
  pub order : List ℕ
  pub disk : ℕ → List ℕ

-- `refcnt` is a uint.
unfoldable pub up : ℕ → ℕ
up r = (r + 1) % 2 ^ 32

unfoldable pub down : ℕ → ℕ
down r = (r + (2 ^ 32 - 1)) % 2 ^ 32

unfoldable pub is_for : ℕ → ℕ → Buf → Bool
is_for dev blockno b = b.dev == dev && b.blockno == blockno

-- The first loop of `bget`, forward through the list.
unfoldable pub find_cached : ℕ → ℕ → (ℕ → Buf) → List ℕ → Option ℕ
unfolding is_for
find_cached dev blockno h [] = none
find_cached dev blockno h (b ∷ bs) =
    if is_for dev blockno (h b) then some b else find_cached dev blockno h bs

-- The second loop, backward.
unfoldable pub find_unused : (ℕ → Buf) → List ℕ → Option ℕ
find_unused h [] = none
find_unused h (b ∷ bs) = elim (find_unused h bs) [
  | some a ↦ some a
  | none ↦ if (h b).refcnt == 0 then some b else none
]

-- `acquiresleep(&b->lock); return b`.
unfoldable pub lock_buf : ℕ → ℕ → State → Result (ℕ × State)
unfolding acquiresleep upd
lock_buf me b s = acquiresleep me (s.bufs b).lock >>= λ k.
    ok (b, record s { bufs = upd s.bufs b (record (s.bufs b) { lock = k }) })

unfoldable pub bpin : ℕ → State → State
unfolding up upd
bpin b s = record s { bufs = upd s.bufs b (record (s.bufs b) { refcnt = up (s.bufs b).refcnt }) }

unfoldable pub recycle : ℕ → ℕ → ℕ → State → State
unfolding upd
recycle dev blockno b s = record s {
  bufs =
      upd s.bufs b (record (s.bufs b) { dev = dev; blockno = blockno; valid = false; refcnt = 1 });
}

-- `b->refcnt++` is that of `bpin`.
unfoldable pub bget_cached : Caller → ℕ → ℕ → State → Result (ℕ × State)
unfolding bpin lock_buf
bget_cached c me b s = enter_recovery_critical_section_nodes c Kind.buf b s.locks >>= λ l.
    exit_recovery_critical_section c rl_flag_bcache 0 l >>= λ l'.
    lock_buf me b (bpin b (record s { locks = l' }))

unfoldable pub bget_recycle : Caller → ℕ → ℕ → ℕ → ℕ → State → Result (ℕ × State)
unfolding recycle lock_buf
bget_recycle c me dev blockno b s =
    exit_recovery_critical_section c rl_flag_bcache 0 s.locks >>= λ l.
    enter_recovery_critical_section_nodes c Kind.buf b l >>= λ l'.
    lock_buf me b (recycle dev blockno b (record s { locks = l' }))

unfoldable pub bget : Caller → ℕ → ℕ → ℕ → State → Result (ℕ × State)
unfolding find_cached find_unused bget_cached bget_recycle
bget c me dev blockno s = enter_recovery_critical_section c rl_flag_bcache 0 s.locks >>= λ l.
    elim (find_cached dev blockno s.bufs s.order) [
      | some b ↦ bget_cached c me b (record s { locks = l })
      | none ↦ elim (find_unused s.bufs s.order) [
        | some b ↦ bget_recycle c me dev blockno b (record s { locks = l })
        | none ↦ panic
      ]
    ]

unfoldable pub read_block : ℕ → State → State
unfolding upd
read_block b s = record s {
  bufs = upd s.bufs b (record (s.bufs b) { words = s.disk (s.bufs b).blockno; valid = true });
}

unfoldable pub bread : Caller → ℕ → ℕ → ℕ → State → Result (ℕ × State)
unfolding bget read_block
bread c me dev blockno s =
    bget c me dev blockno s >>= λ (b, t). ok (b, if not (t.bufs b).valid then read_block b t else t)

unfoldable pub bwrite : ℕ → ℕ → State → Result State
unfolding holdingsleep upd
bwrite me b s =
    if not (holdingsleep me (s.bufs b).lock)
    then panic
    else ok (record s { disk = upd s.disk (s.bufs b).blockno (s.bufs b).words })

-- The count goes down; without users the buffer moves to the front of the list.
unfoldable pub put_back : ℕ → State → State
unfolding down releasesleep upd
put_back b s =
    let r = down (s.bufs b).refcnt in
    record s {
      bufs = upd s.bufs b (record (s.bufs b) { lock = releasesleep (s.bufs b).lock; refcnt = r });
      order = if r == 0 then b ∷ View.delete b s.order else s.order;
    }

unfoldable pub brelse : Caller → ℕ → ℕ → State → Result State
unfolding holdingsleep put_back
brelse c me b s =
    if not (holdingsleep me (s.bufs b).lock)
    then panic
    else enter_recovery_critical_section c rl_flag_bcache 0 s.locks >>= λ l.
        exit_recovery_critical_section_nodes c Kind.buf b l >>= λ l1.
        exit_recovery_critical_section c rl_flag_bcache 0 l1 >>= λ l2.
        ok (record (put_back b s) { locks = l2 })

unfoldable pub bunpin : ℕ → State → State
unfolding down upd
bunpin b s = record s {
  bufs = upd s.bufs b (record (s.bufs b) { refcnt = down (s.bufs b).refcnt });
}
