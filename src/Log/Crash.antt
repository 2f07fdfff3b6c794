-- ===== src/Log/Crash.antt =====
-- kernel/log.c: `commit` is atomic. After each of its writes to the disk the log is clear and the homes
-- are as before, or the log holds all the new blocks, or the log is clear and the homes are new.
use ev.Prelude.{
  upd, ℕ, suc, ◌+◌, ◌<◌, ◌≤◌, ◌≡◌, ◌≢◌, ◌⊎◌, inl, inr, refl, true, false, List, [], ◌∷◌, some, ◌==◌,
  if◌then◌else◌, get_elem?, length, All, ◌∙◌, arith, ok, Bool-cases, get_elem?-lt-length,
}
use ev.Params.{LogHeader}
use ev.Log.{
  Disk, State, bwrite, copy, write_log_from, install_from, take, live, put_header, header_n,
  header_blocks, write_head, write_log, install_trans, clear, commit,
}
use ev.Log.Disk.{
  mem, is_home, after, Holds, Homes, in_log, install_from-get, All-install_from, All-write_log_from,
  write_log_from-off, write_log_from-get,
}
use ev.Log.Header.{header_blocks-put_header, header_n-zero, length-take}

-- What `write_head` does when `bs` are the entries in use.
abbrev pub headed : ℕ → List ℕ → State → State
headed n bs s =
    bwrite s.start (record s { cache = upd s.cache s.start (put_header n bs (s.cache s.start)) })

pub write_log_from-rest :
    (tail : ℕ) (bs : List ℕ) (s : State)
    → ((write_log_from tail bs s).trans ≡ s.trans) × ((write_log_from tail bs s).start ≡ s.start)
unfolding write_log_from copy bwrite
write_log_from-rest tail [] s = (refl, refl)
write_log_from-rest tail (b ∷ bs) s =
    write_log_from-rest (suc tail) bs (copy (s.start + tail + 1) b s)

pub install_from-rest :
    (tail : ℕ) (bs : List ℕ) (s : State)
    → ((install_from tail bs s).trans ≡ s.trans) × ((install_from tail bs s).start ≡ s.start)
unfolding install_from copy bwrite
install_from-rest tail [] s = (refl, refl)
install_from-rest tail (b ∷ bs) s = install_from-rest (suc tail) bs _

pub live-length : (lh : LogHeader) (bs : List ℕ) → live lh ≡ ok bs → length bs ≡ lh.n
unfolding live
live-length lh bs h = ground (arith, length-take lh.n lh.block)

-- The states that `commit` goes through.
module _ (s : State) (bs : List ℕ) where
  abbrev pub logged : State
  logged = write_log_from 0 bs s

  abbrev pub committed : State
  committed = headed (length bs) bs logged

  abbrev pub installed : State
  installed = install_from 0 bs committed

  abbrev pub done : State
  done = headed 0 [] (clear installed)

live-cleared : (lh : LogHeader) → live (record lh { n = 0 }) ≡ ok []
unfolding live take
live-cleared lh = ground arith

write_head_lem :
    (t : State) (bs : List ℕ)
    → live t.trans.lh ≡ ok bs
    → write_head t ≡ ok (headed (length bs) bs t)
unfolding write_head
write_head_lem t bs h = ground (arith, live-length t.trans.lh bs h)

write_log_lem :
    (t : State) (bs : List ℕ) → live t.trans.lh ≡ ok bs → write_log t ≡ ok (write_log_from 0 bs t)
unfolding write_log
write_log_lem t bs h = ground arith

pub install_trans_lem :
    (t : State) (bs : List ℕ) → live t.trans.lh ≡ ok bs → install_trans t ≡ ok (install_from 0 bs t)
unfolding install_trans
install_trans_lem t bs h = ground arith

pub write_head-clear : (t : State) → write_head (clear t) ≡ ok (headed 0 [] (clear t))
unfolding clear
write_head-clear t = write_head_lem (clear t) [] (live-cleared t.trans.lh)

pub commit_lem :
    (s : State) (bs : List ℕ)
    → live s.trans.lh ≡ ok bs
    → s.trans.lh.n ≢ 0
    → commit s ≡ ok (done s bs)
unfolding commit bwrite
commit_lem s bs h n =
    let live_logged : live (logged s bs).trans.lh ≡ ok bs = rw ((write_log_from-rest 0 bs s).0) h in
    rw
      (
        write_log_lem s bs h,
        write_head_lem (logged s bs) bs live_logged,
        install_trans_lem (committed s bs) bs live_logged,
        write_head-clear (installed s bs),
      )
      ground arith

pub headed-get :
    (n : ℕ) (bs : List ℕ) (t : State) (b : ℕ)
    → ((headed n bs t).disk b
        ≡ (if b == t.start then put_header n bs (t.cache t.start) else t.disk b))
      × ((headed n bs t).cache b
          ≡ (if b == t.start then put_header n bs (t.cache t.start) else t.cache b))
unfolding bwrite upd
headed-get n bs t b = ground arith

-- The disk while the log is clear, while it is committed, and when its blocks are at home.
module _ (s : State) (bs : List ℕ) (size : ℕ) where
  abbrev pub IsOld : Disk → Type 0
  IsOld d = (header_n (d s.start) ≡ 0) × ((b : ℕ) → is_home s.start size b ≡ true → d b ≡ s.disk b)

  abbrev pub IsCommitted : Disk → Type 0
  IsCommitted d =
      (header_n (d s.start) ≡ length bs)
      × (header_blocks (d s.start) ≡ bs)
      × Holds s.cache 0 bs s.start d
      × ((b : ℕ) → is_home s.start size b ≡ true → mem b bs ≡ false → d b ≡ s.disk b)

  abbrev pub IsNew : Disk → Type 0
  IsNew d =
      (header_n (d s.start) ≡ 0)
      × ((b : ℕ) → is_home s.start size b ≡ true → d b ≡ after s.cache bs s.disk b)

  abbrev pub IsAtomic : Disk → Type 0
  IsAtomic d = IsOld d ⊎ (IsCommitted d ⊎ IsNew d)

  module _ (homes : Homes s.start size bs) (fits : length bs ≤ size)
      (room : length bs < length (s.cache s.start)) (cleared : header_n (s.disk s.start) ≡ 0) where
    logging-IsOld :
        (d : Disk) → ((b : ℕ) → in_log s.start 0 (length bs) b ≡ false → d b ≡ s.disk b) → IsOld d
    unfolding in_log is_home
    logging-IsOld d same = (ground (arith, same s.start), λ b h. same b (ground arith))

    committed-get :
        (b : ℕ)
        → (committed s bs).disk b ≡ (
            if b == s.start
            then put_header (length bs) bs (s.cache s.start)
            else (logged s bs).disk b)
    unfolding in_log
    committed-get b = ground (
      arith,
      headed-get (length bs) bs (logged s bs) b,
      write_log_from-rest 0 bs s,
      write_log_from-off 0 bs s s.start,
    )

    committed-IsCommitted : IsCommitted (committed s bs).disk
    unfolding is_home in_log
    committed-IsCommitted =
        let at_start = committed-get s.start in
        let back = header_blocks-put_header bs (s.cache s.start) room in
        (
          ground arith,
          ground arith,
          λ i b e. ground (
            arith,
            committed-get (s.start + 0 + 1 + i),
            write_log_from-get 0 size bs s i b homes (omega arith) e,
          ),
          λ b h m. ground (arith, committed-get b, write_log_from-off 0 bs s b),
        )

    start-out : mem s.start bs ≡ false
    unfolding is_home
    start-out = elim (Bool-cases (mem s.start bs)) [
      | inl e ↦ ground (arith, homes s.start e)
      | inr e ↦ e
    ]

    log-out : (i : ℕ) → i < length bs → mem (s.start + 0 + 1 + i) bs ≡ false
    unfolding is_home
    log-out i lt = elim (Bool-cases (mem (s.start + 0 + 1 + i) bs)) [
      | inl e ↦ ground (arith, homes (s.start + 0 + 1 + i) e)
      | inr e ↦ e
    ]

    installing-IsCommitted :
        (d : Disk) → ((b : ℕ) → mem b bs ≡ false → d b ≡ (committed s bs).disk b) → IsCommitted d
    installing-IsCommitted d same =
        let (n, blocks, holds, others) = committed-IsCommitted in
        let top = same s.start start-out in
        (
          ground arith,
          ground arith,
          λ i b e. ground (
            arith,
            holds i b e,
            same (s.start + 0 + 1 + i) (log-out i (get_elem?-lt-length bs i b e)),
          ),
          λ b h m. ground (arith, others b h m, same b m),
        )

    committed-cache :
        (i b : ℕ)
        → get_elem? bs i ≡ some b
        → (committed s bs).cache ((committed s bs).start + 0 + 1 + i) ≡ s.cache b
    unfolding bwrite
    committed-cache i b e = rw ((write_log_from-rest 0 bs s).1) ground (
      arith,
      headed-get (length bs) bs (logged s bs) (s.start + 0 + 1 + i),
      write_log_from-rest 0 bs s,
      write_log_from-get 0 size bs s i b homes (omega arith) e,
    )

    committed-start : (committed s bs).start ≡ s.start
    unfolding bwrite
    committed-start = (write_log_from-rest 0 bs s).1

    done-IsNew : IsNew (done s bs).disk
    unfolding clear is_home in_log
    done-IsNew =
        let start_same : (installed s bs).start ≡ s.start =
          (install_from-rest 0 bs (committed s bs)).1 ∙ committed-start in
        (
          ground (
            arith,
            start_same,
            headed-get 0 [] (clear (installed s bs)) s.start,
            header_n-zero [] ((installed s bs).cache s.start),
          ),
          λ b h. ground (
            arith,
            start_same,
            headed-get 0 [] (clear (installed s bs)) b,
            committed-get b,
            write_log_from-off 0 bs s b,
            install_from-get s.cache 0 size bs (committed s bs) committed-cache
                (rw committed-start homes) (omega arith) b,
          ),
        )

    commit-disks : All IsAtomic s.disks → All IsAtomic (done s bs).disks
    unfolding bwrite clear
    commit-disks before = (
      inr (inr done-IsNew),
      All-install_from IsAtomic 0 bs (committed s bs)
          (
            inr (inl committed-IsCommitted),
            All-write_log_from IsAtomic 0 bs s before (λ d same. inl (logging-IsOld d same)),
          )
          (λ d same. inr (inl (installing-IsCommitted d same))),
    )

-- A commit of a log with entries, none of which is the header's block or one of the `size` log blocks,
-- with room for them there and in the header's block, and with a clear log on the disk: it returns;
-- after each of its writes the log is clear and the homes are old, or the log holds the new blocks and
-- the other homes are old, or the log is clear and the homes are new; at the end it is the last.
pub commit-IsAtomic :
    (s : State) (bs : List ℕ) (size : ℕ)
    → live s.trans.lh ≡ ok bs
    → s.trans.lh.n ≢ 0
    → Homes s.start size bs
    → length bs ≤ size
    → length bs < length (s.cache s.start)
    → header_n (s.disk s.start) ≡ 0
    → All (IsAtomic s bs size) s.disks
    → (t : State) × (commit s ≡ ok t) × All (IsAtomic s bs size) t.disks × IsNew s bs size t.disk
commit-IsAtomic s bs size h n homes fits room cleared before = (
  done s bs,
  commit_lem s bs h n,
  commit-disks s bs size homes fits room cleared before,
  done-IsNew s bs size homes fits room cleared,
)
