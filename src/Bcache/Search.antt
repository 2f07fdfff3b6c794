-- ===== src/Bcache/Search.antt =====
-- kernel/bio.c: what the two loops of `bget` find, and what `bget` changes.
use ev.Prelude.{
  ℕ, ◌≡◌, ◌≢◌, refl, ap, ◌⊎◌, inl, inr, true, false, List, [], ◌∷◌, ◌++◌, none, some, ◌==◌, arith,
  Bool-cases, Option-cases, All, ok, >>=-eq-ok, upd,
}
use ev.MList.View.{contains}
use ev.RecoveryLock.Index.{Kind, rl_flag_bcache}
use ev.RecoveryLock.Locks
use ev.RecoveryLock.Locks.{
  Caller, enter_recovery_critical_section, enter_recovery_critical_section_nodes,
  exit_recovery_critical_section,
}
use ev.Sleeplock.{acquiresleep}
use ev.Bcache.{
  Buf, State, is_for, up, find_cached, find_unused, lock_buf, bget_cached, bget_recycle, bget, bpin,
  recycle,
}

pub find_cached-some :
    (dev n : ℕ) (h : ℕ → Buf) (order : List ℕ) (b : ℕ)
    → find_cached dev n h order ≡ some b
    → (contains b order ≡ true) × ((h b).dev ≡ dev) × ((h b).blockno ≡ n)
unfolding find_cached is_for contains
find_cached-some dev n h [] b e = ground arith
find_cached-some dev n h (a ∷ xs) b e = ground (arith, find_cached-some dev n h xs b)

pub find_cached-none :
    (dev n : ℕ) (h : ℕ → Buf) (order : List ℕ) (a : ℕ)
    → find_cached dev n h order ≡ none
    → contains a order ≡ true
    → is_for dev n (h a) ≡ false
unfolding find_cached is_for contains
find_cached-none dev n h [] b e m = ground arith
find_cached-none dev n h (a ∷ xs) b e m = ground (arith, find_cached-none dev n h xs b)

pub find_cached_complete :
    (dev n : ℕ) (h : ℕ → Buf) (order : List ℕ) (a : ℕ)
    → contains a order ≡ true
    → is_for dev n (h a) ≡ true
    → (b : ℕ) × (find_cached dev n h order ≡ some b)
find_cached_complete dev n h order a m e = elim (Option-cases (find_cached dev n h order)) [
  | inr w ↦ w
  | inl w ↦
      let no : is_for dev n (h a) ≡ false = find_cached-none dev n h order a w m in
      absurd (ground arith)
]

pub find_unused-some :
    (h : ℕ → Buf) (order : List ℕ) (b : ℕ)
    → find_unused h order ≡ some b
    → (contains b order ≡ true) × ((h b).refcnt ≡ 0)
unfolding find_unused contains
find_unused-some h [] b e = ground arith
find_unused-some h (a ∷ xs) b e = ground (arith, find_unused-some h xs b)

abbrev pub InUse : (ℕ → Buf) → ℕ → Type 0
InUse h b = (h b).refcnt ≢ 0

find_unused-none : (h : ℕ → Buf) (order : List ℕ) → find_unused h order ≡ none → All (InUse h) order
unfolding find_unused
find_unused-none h [] e = tt
find_unused-none h (a ∷ xs) e = elim (Option-cases (find_unused h xs)) [
  | inl w ↦ (ground arith, find_unused-none h xs w)
  | inr w ↦ absurd (ground arith)
]

pub record IsLast (h : ℕ → Buf) (order : List ℕ) (b : ℕ) : Type 0 where
  pub newer : List ℕ
  pub older : List ℕ
  pub split : order ≡ newer ++ b ∷ older
  pub unused : (h b).refcnt ≡ 0
  pub used : All (InUse h) older

-- The second loop of `bget` finds the least recently released buffer: the one it takes is not in use,
-- and all buffers behind it in the list are. It finds none only when all are in use.
pub find_unused_lem :
    (h : ℕ → Buf) (order : List ℕ)
    → ((find_unused h order ≡ none) × All (InUse h) order)
      ⊎ ((b : ℕ) × (find_unused h order ≡ some b) × IsLast h order b)
unfolding find_unused
find_unused_lem h [] = inl (refl, tt)
find_unused_lem h (a ∷ xs) = elim (find_unused_lem h xs) [
  | inr (b, e, w) ↦ inr (
    b,
    ground arith,
    record {
      newer = a ∷ w.newer;
      older = w.older;
      split = ap (λ ys. a ∷ ys) w.split;
      unused = w.unused;
      used = w.used;
    },
  )
  | inl (e, w) ↦ elim (Bool-cases ((h a).refcnt == 0)) [
    | inl z ↦ inr (
      a,
      ground arith,
      record { newer = []; older = xs; split = refl; unused = ground arith; used = w },
    )
    | inr z ↦ inl (ground arith, (ground arith, w))
  ]
]

-- What `bget` does with the buffer that it gives: `was` before, `now` after it.
pub record Hit (me dev n : ℕ) (was now : Buf) : Type 0 where
  pub dev_eq : was.dev ≡ dev
  pub blockno_eq : was.blockno ≡ n
  pub changed :
      now ≡ record was { refcnt = up was.refcnt; lock = record { locked = true; pid = me } }

pub record Miss (me dev n : ℕ) (was now : Buf) : Type 0 where
  pub unused : was.refcnt ≡ 0
  pub changed : now ≡ record was {
    dev = dev;
    blockno = n;
    valid = false;
    refcnt = 1;
    lock = record { locked = true; pid = me };
  }

pub record Got (s t : State) (b : ℕ) : Type 0 where
  pub listed : contains b s.order ≡ true
  pub order_eq : t.order ≡ s.order
  pub disk_eq : t.disk ≡ s.disk
  pub others : (a : ℕ) → a ≢ b → t.bufs a ≡ s.bufs a

Got-relocked :
    (s t : State) (l : Locks.State) (b : ℕ) → Got (record s { locks = l }) t b → Got s t b
Got-relocked s t l b g = record {
  listed = g.listed;
  order_eq = g.order_eq;
  disk_eq = g.disk_eq;
  others = g.others;
}

lock_buf_lem :
    (me b b' : ℕ) (s t : State)
    → lock_buf me b s ≡ ok (b', t)
    → (b' ≡ b)
      × (t.order ≡ s.order)
      × (t.disk ≡ s.disk)
      × (t.bufs b ≡ record (s.bufs b) { lock = record { locked = true; pid = me } })
      × ((a : ℕ) → a ≢ b → t.bufs a ≡ s.bufs a)
unfolding lock_buf acquiresleep upd
lock_buf_lem me b b' s t h = elim (Bool-cases (s.bufs b).lock.locked) [
  | inl e ↦ absurd (ground arith)
  | inr e ↦ (ground arith, ground arith, ground arith, ground arith, λ a ne. ground arith)
]

bget_cached_lem :
    (c : Caller) (me b b' : ℕ) (s t : State)
    → contains b s.order ≡ true
    → bget_cached c me b s ≡ ok (b', t)
    → (b' ≡ b)
      × Got s t b
      × (t.bufs b ≡ record (s.bufs b) {
        refcnt = up (s.bufs b).refcnt;
        lock = record { locked = true; pid = me };
      })
unfolding bget_cached bpin upd
bget_cached_lem c me b b' s t m h =
    let (l, e1, h1) = >>=-eq-ok (enter_recovery_critical_section_nodes c Kind.buf b s.locks) _ h in
    let (l', e2, h2) = >>=-eq-ok (exit_recovery_critical_section c rl_flag_bcache 0 l) _ h1 in
    let (eb, o, d, now, f) = lock_buf_lem me b b' (bpin b (record s { locks = l' })) t h2 in
    (
      eb,
      record { listed = m; order_eq = o; disk_eq = d; others = λ a ne. ground (arith, f a ne) },
      ground arith,
    )

bget_recycle_lem :
    (c : Caller) (me dev n b b' : ℕ) (s t : State)
    → contains b s.order ≡ true
    → bget_recycle c me dev n b s ≡ ok (b', t)
    → (b' ≡ b)
      × Got s t b
      × (t.bufs b ≡ record (s.bufs b) {
        dev = dev;
        blockno = n;
        valid = false;
        refcnt = 1;
        lock = record { locked = true; pid = me };
      })
unfolding bget_recycle recycle upd
bget_recycle_lem c me dev n b b' s t m h =
    let (l, e1, h1) = >>=-eq-ok (exit_recovery_critical_section c rl_flag_bcache 0 s.locks) _ h in
    let (l', e2, h2) = >>=-eq-ok (enter_recovery_critical_section_nodes c Kind.buf b l) _ h1 in
    let (eb, o, d, now, f) =
      lock_buf_lem me b b' (recycle dev n b (record s { locks = l' })) t h2 in
    (
      eb,
      record { listed = m; order_eq = o; disk_eq = d; others = λ a ne. ground (arith, f a ne) },
      ground arith,
    )

abbrev pub Outcome : (me dev n b : ℕ) (s t : State) → Type 0
Outcome me dev n b s t =
    ((find_cached dev n s.bufs s.order ≡ some b) × Hit me dev n (s.bufs b) (t.bufs b))
    ⊎ ((find_cached dev n s.bufs s.order ≡ none) × Miss me dev n (s.bufs b) (t.bufs b))

-- A buffer that `bget` gives is one of the list, belongs to the block, and is locked by the caller.
-- Either it was the block's buffer before, and only its lock and its count change, the count by one;
-- or the block had no buffer, and the buffer was not in use. All other buffers, the list and the disk
-- stay the same, so no buffer in use is ever given to another block.
pub bget_lem :
    (c : Caller) (me dev n b : ℕ) (s t : State)
    → bget c me dev n s ≡ ok (b, t)
    → Got s t b × Outcome me dev n b s t
unfolding bget
bget_lem c me dev n b s t h =
    let (l, e0, h0) = >>=-eq-ok (enter_recovery_critical_section c rl_flag_bcache 0 s.locks) _ h in
    elim (Option-cases (find_cached dev n s.bufs s.order)) [
      | inr (a, e) ↦
          let (m, de, be) = find_cached-some dev n s.bufs s.order a e in
          let (eb, g, now) = bget_cached_lem c me a b (record s { locks = l }) t m (rw e at h0) in
          rw eb (
            Got-relocked s t l a g,
            inl (e, record { dev_eq = de; blockno_eq = be; changed = now }),
          )
      | inl e ↦ elim (Option-cases (find_unused s.bufs s.order)) [
        | inl u ↦ absurd (ground arith)
        | inr (a, u) ↦
            let (m, z) = find_unused-some s.bufs s.order a u in
            let (eb, g, now) =
              bget_recycle_lem c me dev n a b (record s { locks = l }) t m (rw (e, u) at h0) in
            rw eb (Got-relocked s t l a g, inr (e, record { unused = z; changed = now }))
      ]
    ]
