-- ===== src/Log/Recover.antt =====
-- kernel/log.c: `recover_from_log` after a crash.
use ev.Prelude.{
  upd, ℕ, ◌≤◌, ◌≡◌, ◌⊎◌, inl, inr, refl, true, List, [], ◌∷◌, some, get_elem?, set, length, arith,
  ok, ◌∙◌,
}
use ev.Prelude.Int.{negsuc, IsNat, succ, pred, succ-is_pos, is_pos-not_neg}
use ev.Params.{LogHeader}
use ev.Trans
use ev.Trans.{TransInfo, index, info_at, enter_trans_log, exit_trans_log}
use ev.Trans.Nesting.{info_at-set}
use ev.Log.{
  Block, Disk, State, bwrite, install_from, take, overlay, live, header_n, header_blocks, clear,
  fill, read_head, recover_from_log,
}
use ev.Log.Disk.{is_home, after, Homes, install_from-get}
use ev.Log.Header.{take-overlay, header_n-zero}
use ev.Log.Crash.{
  IsCommitted, IsAtomic, headed, headed-get, install_from-rest, install_trans_lem, write_head-clear,
}

length-overlay : (bs ws : List ℕ) → length (overlay bs ws) ≡ length ws
unfolding overlay
length-overlay [] ws = refl
length-overlay (b ∷ bs) [] = refl
length-overlay (b ∷ bs) (w ∷ ws) = omega (arith, length-overlay bs ws)

-- The header read from a block whose count is the number of its entries.
fill-live :
    (lh : LogHeader) (w : Block) (bs : List ℕ)
    → header_n w ≡ length bs
    → header_blocks w ≡ bs
    → length bs ≤ length lh.block
    → (out : LogHeader) × (fill lh w ≡ ok out) × (live out ≡ ok bs)
unfolding fill live
fill-live lh w bs n e fits = (
  record { n = header_n w; block = overlay (header_blocks w) lh.block },
  ground arith,
  ground (arith, length-overlay bs lh.block, take-overlay bs lh.block fits),
)

no_blocks : (w : Block) → header_n w ≡ 0 → header_blocks w ≡ []
unfolding header_n header_blocks take
no_blocks [] n = refl
no_blocks (v ∷ w) n = rw n refl

-- The process that recovers has an entry whose count is not below zero.
abbrev pub CanEnter : ℕ → Trans.State → Type 0
CanEnter me t =
    (i : ℕ) × (x : TransInfo) × (index me t ≡ some i)
    × (get_elem? t.infos i ≡ some x)
    × IsNat x.log_ntrans

enter_lem :
    (me : ℕ) (s : Trans.State)
    → CanEnter me s
    → (t : Trans.State) × (enter_trans_log me s ≡ ok t)
      × (t.lh ≡ s.lh)
      × (t.dup_lhdr ≡ s.dup_lhdr)
      × ((lh dup : LogHeader)
          → (u : Trans.State) × (exit_trans_log me (record t { lh = lh; dup_lhdr = dup }) ≡ ok u)
            × (u.lh ≡ lh))
unfolding enter_trans_log exit_trans_log info_at
enter_lem me s (i, x, e, g, nat) =
    let y : TransInfo = record x { log_ntrans = succ x.log_ntrans } in
    let t : Trans.State = record s {
      infos = set s.infos i y;
      log_logheader = s.lh;
      log_outstanding = s.outstanding;
    } in
    let at : info_at (index me s) s ≡ ok (i, x) = rw e ground arith in
    (
      t,
      rw e ground (arith, is_pos-not_neg x.log_ntrans, nat),
      refl,
      refl,
      λ lh dup.
          let v : Trans.State = record t { lh = lh; dup_lhdr = dup } in
          let found : info_at (index me v) v ≡ ok (i, y) =
            info_at-set me s i x y v at refl refl refl in
          (
            record v {
              infos = set v.infos i (record y { log_ntrans = pred y.log_ntrans });
              log_outstanding = negsuc 0;
            },
            rw found ground (arith, succ-is_pos x.log_ntrans nat),
            refl,
          ),
    )

read_head_lem :
    (me : ℕ) (r : State) (bs : List ℕ)
    → CanEnter me r.trans
    → header_n (r.cache r.start) ≡ length bs
    → header_blocks (r.cache r.start) ≡ bs
    → length bs ≤ length r.trans.lh.block
    → length bs ≤ length r.trans.dup_lhdr.block
    → (u : Trans.State) × (read_head me r ≡ ok (record r { trans = u })) × (live u.lh ≡ ok bs)
unfolding read_head
read_head_lem me r bs can n blocks fits dup_fits =
    let (lh, f, l) = fill-live r.trans.lh (r.cache r.start) bs n blocks fits in
    let (dup, f', l') = fill-live r.trans.dup_lhdr (r.cache r.start) bs n blocks dup_fits in
    let (t, entered, same, same_dup, leaves) = enter_lem me r.trans can in
    let (u, left, last) = leaves lh dup in
    (u, rw (entered, same, same_dup, f, f', left) refl, rw last l)

-- When the log on the disk is clear, recovery changes no home.
-- When it is committed, recovery brings its blocks home.
recover_lem :
    (me : ℕ) (r : State) (bs : List ℕ)
    → CanEnter me r.trans
    → header_n (r.cache r.start) ≡ length bs
    → header_blocks (r.cache r.start) ≡ bs
    → length bs ≤ length r.trans.lh.block
    → length bs ≤ length r.trans.dup_lhdr.block
    → (u : Trans.State) × (recover_from_log me r
        ≡ ok (headed 0 [] (clear (install_from 0 bs (record r { trans = u })))))
unfolding recover_from_log
recover_lem me r bs can n blocks fits dup_fits =
    let (u, h, l) = read_head_lem me r bs can n blocks fits dup_fits in
    (
      u,
      rw
          (
            h,
            install_trans_lem (record r { trans = u }) bs l,
            write_head-clear (install_from 0 bs (record r { trans = u })),
          )
          refl,
    )

module _ (s : State) (size me : ℕ) (r : State) where
  abbrev pub Recovers : Disk → Type 0
  Recovers h =
      (t : State) × (recover_from_log me r ≡ ok t)
      × (header_n (t.disk t.start) ≡ 0)
      × ((b : ℕ) → is_home s.start size b ≡ true → t.disk b ≡ h b)

module _ (s : State) (bs : List ℕ) (size : ℕ) (me : ℕ) (r : State) (can : CanEnter me r.trans)
    (boot : r.cache ≡ r.disk) (here : r.start ≡ s.start) where
  recovered :
      (cs : List ℕ) (u : Trans.State) (b : ℕ)
      → is_home s.start size b ≡ true
      → (headed 0 [] (clear (install_from 0 cs (record r { trans = u })))).disk b
        ≡ (install_from 0 cs (record r { trans = u })).disk b
  unfolding clear is_home
  recovered cs u b home = ground (
    arith,
    install_from-rest 0 cs (record r { trans = u }),
    headed-get 0 [] (clear (install_from 0 cs (record r { trans = u }))) b,
  )

  cleared : (t : State) → header_n ((headed 0 [] (clear t)).disk (headed 0 [] (clear t)).start) ≡ 0
  unfolding bwrite clear upd
  cleared t = ground (arith, header_n-zero [] (t.cache t.start))

  recover-clear :
      (h : Disk)
      → header_n (r.disk s.start) ≡ 0
      → ((b : ℕ) → is_home s.start size b ≡ true → r.disk b ≡ h b)
      → Recovers s size me r h
  unfolding header_blocks install_from header_n take
  recover-clear h zeroed same =
      let n : header_n (r.cache r.start) ≡ 0 = rw (boot, here) zeroed in
      let (u, e) =
        recover_lem me r [] can n (no_blocks (r.cache r.start) n) (omega arith) (omega arith) in
      (
        headed 0 [] (clear (install_from 0 [] (record r { trans = u }))),
        e,
        cleared (install_from 0 [] (record r { trans = u })),
        λ b home. recovered [] u b home ∙ same b home,
      )

  recover-IsCommitted :
      (homes : Homes s.start size bs)
      → length bs ≤ size
      → length bs ≤ length r.trans.lh.block
      → length bs ≤ length r.trans.dup_lhdr.block
      → IsCommitted s bs size r.disk
      → Recovers s size me r (after s.cache bs s.disk)
  recover-IsCommitted homes fits room dup_room (n, blocks, holds, others) =
      let (u, e) =
        recover_lem me r bs can (rw (boot, here) n) (rw (boot, here) blocks) room dup_room in
      let q = install_from 0 bs (record r { trans = u }) in
      (
        headed 0 [] (clear q),
        e,
        cleared q,
        λ b home.
            recovered bs u b home
            ∙ ground (
              arith,
              others b home,
              install_from-get s.cache 0 size bs (record r { trans = u }) (rw (here, boot) holds)
                  (rw here homes) (omega arith) b,
            ),
      )

-- After a crash in any of the states that a commit passes through, recovery at the next start of the
-- kernel returns, clears the log on the disk, and leaves all homes as they were before the commit or
-- all homes with the blocks that the commit wrote; given that the caches are as the disk, that the
-- process can enter a log transaction, and that both headers in memory have room for the entries.
pub recover-IsAtomic :
    (s : State) (bs : List ℕ) (size me : ℕ) (r : State)
    → CanEnter me r.trans
    → r.cache ≡ r.disk
    → r.start ≡ s.start
    → Homes s.start size bs
    → length bs ≤ size
    → length bs ≤ length r.trans.lh.block
    → length bs ≤ length r.trans.dup_lhdr.block
    → IsAtomic s bs size r.disk
    → Recovers s size me r s.disk ⊎ Recovers s size me r (after s.cache bs s.disk)
recover-IsAtomic s bs size me r can boot here homes fits room dup_room (inl (n, same)) =
    inl (recover-clear s bs size me r can boot here s.disk n same)
recover-IsAtomic s bs size me r can boot here homes fits room dup_room (inr (inl c)) =
    inr (recover-IsCommitted s bs size me r can boot here homes fits room dup_room c)
recover-IsAtomic s bs size me r can boot here homes fits room dup_room (inr (inr (n, same))) =
    inr (recover-clear s bs size me r can boot here (after s.cache bs s.disk) n same)
