-- ===== src/Bcache/Reuse.antt =====
-- kernel/bio.c: what `bread` gives, from the disk or from the cache.
use ev.Prelude.{
  ℕ, ◌≡◌, ◌≢◌, refl, sym, ap, ◌∙◌, ◌⊎◌, inl, inr, true, some, arith, Bool-cases, ok, >>=-eq-ok, upd,
}
use ev.MList.View.{contains}
use ev.RecoveryLock.Locks.{Caller}
use ev.Bcache.{State, find_cached, bget, bread, read_block, brelse}
use ev.Bcache.Search.{find_cached-some, find_cached_complete, bget_lem, Outcome}
use ev.Bcache.Unique.{
  IsCached, IsUnique, given_key, is_for_eq, put_back-fields, brelse_lem, brelse-IsUnique,
}

-- The words of a buffer after `bread` in `t`, with the state before in `s`.
abbrev pub IsSource : (dev n b : ℕ) (s t : State) → Type 0
IsSource dev n b s t =
    ((t.bufs b).words ≡ s.disk n)
    ⊎ (((s.bufs b).valid ≡ true)
        × (find_cached dev n s.bufs s.order ≡ some b)
        × ((t.bufs b).words ≡ (s.bufs b).words))

read_block_lem :
    (b : ℕ) (s : State)
    → (((read_block b s).bufs b).valid ≡ true)
      × (((read_block b s).bufs b).words ≡ s.disk (s.bufs b).blockno)
      × (((read_block b s).bufs b).lock ≡ (s.bufs b).lock)
      × (((read_block b s).bufs b).dev ≡ (s.bufs b).dev)
      × (((read_block b s).bufs b).blockno ≡ (s.bufs b).blockno)
unfolding read_block upd
read_block_lem b s = ground arith

IsSource-hit :
    (me dev n b : ℕ) (s t : State)
    → Outcome me dev n b s t
    → (t.bufs b).valid ≡ true
    → IsSource dev n b s t
IsSource-hit me dev n b s t (inl (e, w)) v =
    let c = w.changed in inr (sym (ap (λ x. x.valid) c) ∙ v, e, ap (λ x. x.words) c)
IsSource-hit me dev n b s t (inr (e, w)) v = absurd (ground (arith, w.changed))

given_lock :
    (me dev n b : ℕ) (s t : State)
    → Outcome me dev n b s t
    → (t.bufs b).lock ≡ record { locked = true; pid = me }
given_lock me dev n b s t (inl (e, w)) = ap (λ x. x.lock) w.changed
given_lock me dev n b s t (inr (e, w)) = ap (λ x. x.lock) w.changed

-- `bread` gives a buffer of the block, locked by the caller and valid. It holds what the disk has of
-- the block, or the block had a valid buffer, and it is that one with the same words.
pub bread_lem :
    (c : Caller) (me dev n b : ℕ) (s t : State)
    → bread c me dev n s ≡ ok (b, t)
    → IsCached t dev n b
      × ((t.bufs b).valid ≡ true)
      × ((t.bufs b).lock ≡ record { locked = true; pid = me })
      × IsSource dev n b s t
unfolding bread read_block
bread_lem c me dev n b s t h =
    let ((a, g), e, k) = >>=-eq-ok (bget c me dev n s) _ h in
    let (got, o) = bget_lem c me dev n a s g e in
    let (gd, gk) = given_key me dev n a s g o in
    let lk = given_lock me dev n a s g o in
    let ab : a ≡ b = ground arith in
    let m : contains a g.order ≡ true = rw got.order_eq got.listed in
    elim (Bool-cases (g.bufs a).valid) [
      | inl v ↦
          let gt : g ≡ t = ground arith in
          rw (← ab, ← gt) ((m, gd, gk), v, lk, IsSource-hit me dev n a s g o v)
      | inr v ↦
          let gt : read_block a g ≡ t = ground arith in
          let (rv, rw_, rl, rd, rk) = read_block_lem a g in
          rw (← ab, ← gt)
            ((m, rd ∙ gd, rk ∙ gk), rv, rl ∙ lk, inl (rw_ ∙ rw (got.disk_eq, gk) refl))
    ]

-- The search finds the only buffer of a block.
find_cached_unique :
    (dev n b : ℕ) (s : State)
    → IsUnique s
    → dev ≢ 0
    → IsCached s dev n b
    → find_cached dev n s.bufs s.order ≡ some b
find_cached_unique dev n b s u nz (m, d, k) =
    let (x, e) = find_cached_complete dev n s.bufs s.order b m (is_for_eq dev n (s.bufs b) d k) in
    let (mx, dx, kx) = find_cached-some dev n s.bufs s.order x e in
    e ∙ ap some (u dev n x b nz (mx, dx, kx) (m, d, k))

-- What was found and valid is given as it is.
bread-found :
    (c : Caller) (me dev n b b' : ℕ) (s t : State)
    → bread c me dev n s ≡ ok (b', t)
    → find_cached dev n s.bufs s.order ≡ some b
    → (s.bufs b).valid ≡ true
    → (b' ≡ b) × ((t.bufs b).words ≡ (s.bufs b).words) × (t.disk ≡ s.disk)
unfolding bread
bread-found c me dev n b b' s t h f v =
    let ((a, g), e, k) = >>=-eq-ok (bget c me dev n s) _ h in
    let (got, o) = bget_lem c me dev n a s g e in
    elim o [
      | inr (miss, w) ↦ absurd (ground arith)
      | inl (hit, w) ↦
          let ab : a ≡ b = ground arith in
          let va : (g.bufs a).valid ≡ true = ap (λ x. x.valid) w.changed ∙ rw ab v in
          let gt : g ≡ t = ground arith in
          let wa : (g.bufs a).words ≡ (s.bufs a).words = ap (λ x. x.words) w.changed in
          (ground arith, rw (← gt, ← ab) wa, rw (← gt) got.disk_eq)
    ]

-- A buffer that is released keeps its block's contents for the next `bread`, by any process: that
-- one gives the same buffer with the words that the last user left in it.
pub bread-brelse :
    (c c' : Caller) (me me' dev n b b' : ℕ) (s t u : State)
    → IsUnique s
    → dev ≢ 0
    → IsCached s dev n b
    → (s.bufs b).valid ≡ true
    → brelse c me b s ≡ ok t
    → bread c' me' dev n t ≡ ok (b', u)
    → (b' ≡ b) × ((u.bufs b).words ≡ (s.bufs b).words) × (u.disk ≡ s.disk)
bread-brelse c c' me me' dev n b b' s t u q nz (m, d, k) v h r =
    let (held, eb, eo, ed) = brelse_lem c me b s t h in
    let (qt, same) = brelse-IsUnique c me b s t q m h in
    let (fd, fk, fv, fw) = put_back-fields b b s in
    let f = find_cached_unique dev n b t qt nz (same b ∙ m, rw eb (fd ∙ d), rw eb (fk ∙ k)) in
    let (e, w, z) = bread-found c' me' dev n b b' t u r f (rw eb (fv ∙ v)) in
    (e, w ∙ rw eb fw, z ∙ ed)
