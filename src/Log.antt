-- ===== src/Log.antt =====
-- kernel/log.c: the log of the file system, between the system calls and the buffer cache. The
-- functions go through recovery sections (RecoveryLock) and the transactions on the log header
-- (Trans); `log->lh` and `log->outstanding` with their duplicates are in the state of Trans.
-- A block is the list of its 32-bit words. `cache b` is what `bread` of block `b` gives: a block that
-- differs from the disk is pinned, so the buffer cache keeps it.
pub mod Disk
pub mod Header
pub mod Crash
pub mod Recover
pub mod Absorb
mod Tests
use ev.Prelude.{
  ℕ, zero, suc, ◌+◌, ◌*◌, ◌≡◌, Bool, true, false, not, ◌||◌, List, [], ◌∷◌, Option, none, some,
  ◌==◌, ltb, leb, if◌then◌else◌, get_or, set, length, Result, ok, panic, fault, asleep, ◌>>=◌, upd,
}
use ev.Prelude.Int.{ℤ, pos, negsuc, succ, pred, is_pos}
use ev.Params.{LogHeader, logsize, maxopblocks}
use ev.RecoveryLock.Index.{rl_flag_log}
use ev.RecoveryLock.Locks
use ev.RecoveryLock.Locks.{Caller, enter_recovery_critical_section, exit_recovery_critical_section}
use ev.Bcache.{up, down}
use ev.Trans
use ev.Trans.{enter_trans_log, exit_trans_log}

abbrev pub Block : Type 0
Block = List ℕ

abbrev pub Disk : Type 0
Disk = ℕ → Block

-- `refcnt` is that of the buffer of a block. `disks` is no variable of the kernel: it records what the
-- disk held after each `bwrite`, the last one first, for the theorems on crashes.
pub record State : Type 0 where
  pub locks : Locks.State
  pub trans : Trans.State
  pub committing : Bool
  pub start : ℕ
  pub size : ℕ
  pub refcnt : ℕ → ℕ
  pub cache : Disk
  pub disk : Disk
  pub disks : List Disk

unfoldable pub bwrite : ℕ → State → State
unfolding upd
bwrite b s = let d = upd s.disk b (s.cache b) in record s { disk = d; disks = d ∷ s.disks }

-- `memmove(to->data, from->data, BSIZE)` and `bwrite(to)`.
unfoldable pub copy : (to from : ℕ) → State → State
unfolding bwrite upd
copy to from s = bwrite to (record s { cache = upd s.cache to (s.cache from) })

-- The entries of the header in use; a count above the array's size reads behind it.
unfoldable pub take {ℓ} : {A : Type ℓ} → ℕ → List A → List A
take zero xs = []
take (suc n) [] = []
take (suc n) (x ∷ xs) = x ∷ take n xs

unfoldable pub live : LogHeader → Result (List ℕ)
unfolding take
live lh = if ltb (length lh.block) lh.n then fault else ok (take lh.n lh.block)

-- The loops of `write_log` and `install_trans` over the entries in use, from `tail` on.
unfoldable pub write_log_from : ℕ → List ℕ → State → State
unfolding copy
write_log_from tail [] s = s
write_log_from tail (b ∷ bs) s = write_log_from (suc tail) bs (copy (s.start + tail + 1) b s)

unfoldable pub install_from : ℕ → List ℕ → State → State
unfolding copy upd
install_from tail [] s = s
install_from tail (b ∷ bs) s =
    let t = copy b (s.start + tail + 1) s in
    install_from (suc tail) bs (record t { refcnt = upd t.refcnt b (down (t.refcnt b)) })

-- Entries written one after the other over the front of an array.
unfoldable pub overlay : List ℕ → List ℕ → List ℕ
overlay [] ws = ws
overlay (b ∷ bs) [] = []
overlay (b ∷ bs) (w ∷ ws) = b ∷ overlay bs ws

-- A block as a `struct logheader`: the count, then the array.
unfoldable pub put_header : ℕ → List ℕ → Block → Block
unfolding overlay
put_header n bs [] = []
put_header n bs (w ∷ ws) = n ∷ overlay bs ws

unfoldable pub header_n : Block → ℕ
header_n [] = 0
header_n (w ∷ ws) = w

unfoldable pub header_blocks : Block → List ℕ
unfolding take
header_blocks [] = []
header_blocks (w ∷ ws) = take w ws

unfoldable pub write_head : State → Result State
unfolding live put_header bwrite upd
write_head s = live s.trans.lh >>= λ bs. ok (
    bwrite s.start
      (record s { cache = upd s.cache s.start (put_header s.trans.lh.n bs (s.cache s.start)) }))

-- `log->lh.n = 0; dup_lhdr.n = 0`.
unfoldable pub clear : State → State
clear s = record s {
  trans = record s.trans {
    lh = record s.trans.lh { n = 0 };
    dup_lhdr = record s.trans.dup_lhdr { n = 0 };
  };
}

unfoldable pub write_log : State → Result State
unfolding live write_log_from
write_log s = live s.trans.lh >>= λ bs. ok (write_log_from 0 bs s)

unfoldable pub install_trans : State → Result State
unfolding live install_from
install_trans s = live s.trans.lh >>= λ bs. ok (install_from 0 bs s)

unfoldable pub commit : State → Result State
unfolding write_log write_head install_trans clear
commit s =
    if s.trans.lh.n == 0
    then ok s
    else write_log s >>= write_head >>= install_trans >>= λ t. write_head (clear t)

-- The header on the disk is not checked: a count above LOGSIZE writes behind the array.
unfoldable pub fill : LogHeader → Block → Result LogHeader
unfolding overlay header_n header_blocks
fill lh w =
    if ltb (length lh.block) (header_n w)
    then fault
    else ok (record { n = header_n w; block = overlay (header_blocks w) lh.block })

unfoldable pub read_head : ℕ → State → Result State
unfolding fill
read_head me s = enter_trans_log me s.trans >>= λ t. fill t.lh (s.cache s.start) >>= λ lh.
    fill t.dup_lhdr (s.cache s.start) >>= λ dup.
    exit_trans_log me (record t { lh = lh; dup_lhdr = dup }) >>= λ u. ok (record s { trans = u })

unfoldable pub recover_from_log : ℕ → State → Result State
unfolding read_head install_trans clear write_head
recover_from_log me s = read_head me s >>= install_trans >>= λ t. write_head (clear t)

-- `n + (outstanding + 1) * MAXOPBLOCKS > LOGSIZE`, for an `outstanding` below zero, too.
unfoldable pub no_space : ℕ → ℤ → Bool
no_space n (pos k) = ltb logsize (n + (k + 1) * maxopblocks)
no_space n (negsuc k) = ltb (logsize + k * maxopblocks) n

unfoldable pub with_outstanding : (ℤ → ℤ) → Trans.State → Trans.State
with_outstanding f t = record t {
  outstanding = f t.outstanding;
  dup_outstanding = f t.dup_outstanding;
}

-- A process that has to wait sleeps inside the section.
unfoldable pub begin_op : Caller → State → Result State
unfolding no_space with_outstanding
begin_op c s = enter_recovery_critical_section c rl_flag_log 0 s.locks >>= λ l.
    if s.committing || no_space s.trans.lh.n s.trans.outstanding
    then asleep
    else exit_recovery_critical_section c rl_flag_log 0 l >>= λ l'.
        ok (record s { locks = l'; trans = with_outstanding succ s.trans })

unfoldable pub is_zero : ℤ → Bool
is_zero (pos n) = n == 0
is_zero (negsuc n) = false

-- `end_op` up to its first exit: the flag is `do_commit`.
unfoldable pub end_op_first : Caller → State → Result (State × Bool)
unfolding is_zero with_outstanding
end_op_first c s = enter_recovery_critical_section c rl_flag_log 0 s.locks >>= λ l.
    let t = with_outstanding pred s.trans in
    if s.committing
    then panic
    else exit_recovery_critical_section c rl_flag_log 0 l >>= λ l'. ok (
      record s { locks = l'; trans = t; committing = is_zero t.outstanding },
      is_zero t.outstanding,
    )

-- The part behind `if(do_commit)`, with `myproc()->pid`.
unfoldable pub end_op_commit : Caller → ℕ → State → Result State
unfolding commit
end_op_commit c me s = enter_recovery_critical_section c rl_flag_log me s.locks >>= λ l.
    commit (record s { locks = l }) >>= λ t.
    exit_recovery_critical_section c rl_flag_log me t.locks
    >>= enter_recovery_critical_section c rl_flag_log 0
    >>= exit_recovery_critical_section c rl_flag_log 0
    >>= λ l'. ok (record t { locks = l'; committing = false })

unfoldable pub end_op : Caller → State → Result State
unfolding end_op_first end_op_commit
end_op c s = end_op_first c s >>= λ (t, do_commit).
    if do_commit then elim c.pid [ none ↦ fault | some me ↦ end_op_commit c me t ] else ok t

-- The index of the entry of the block, or the length.
unfoldable pub slot : ℕ → List ℕ → ℕ
slot b [] = 0
slot b (x ∷ xs) = if x == b then 0 else suc (slot b xs)

-- `block[i] = blockno`, and a new entry where `i` is the count; `add` is false where `i` is not the
-- count of `log->lh`. A write behind the array is a fault.
unfoldable pub put_block : ℕ → ℕ → Bool → LogHeader → Result LogHeader
put_block i b add lh =
    if ltb i (length lh.block)
    then ok (record { n = if add then suc lh.n else lh.n; block = set lh.block i b })
    else fault

unfoldable pub log_write_locked : ℕ → ℕ → State → Result State
unfolding live slot put_block upd
log_write_locked me b s = live s.trans.lh >>= λ bs.
    let i = slot b bs in
    let add = i == s.trans.lh.n in
    enter_trans_log me s.trans >>= λ t. put_block i b add t.lh >>= λ lh.
    put_block i b add t.dup_lhdr >>= λ dup.
    exit_trans_log me (record t { lh = lh; dup_lhdr = dup }) >>= λ u.
    ok (record s { trans = u; refcnt = if add then upd s.refcnt b (up (s.refcnt b)) else s.refcnt })

unfoldable pub log_write : Caller → ℕ → ℕ → State → Result State
unfolding log_write_locked
log_write c me b s = enter_recovery_critical_section c rl_flag_log 0 s.locks >>= λ l.
    if leb logsize s.trans.lh.n || leb s.size (s.trans.lh.n + 1)
    then panic
    else if not (is_pos s.trans.outstanding)
    then panic
    else log_write_locked me b (record s { locks = l }) >>= λ t.
        exit_recovery_critical_section c rl_flag_log 0 t.locks >>= λ l'.
        ok (record t { locks = l' })
