-- ===== src/Bcache/Unique.antt =====
-- kernel/bio.c: how many buffers a block has.
use ev.Prelude.{
  ℕ, ◌≡◌, ◌≢◌, refl, sym, inl, inr, true, List, [], ◌∷◌, ◌==◌, arith, Bool-cases, ok, ◌>>=◌,
  >>=-eq-ok, upd,
}
use ev.MList.View
use ev.MList.View.{contains}
use ev.RecoveryLock.Index.{Kind, rl_flag_bcache}
use ev.RecoveryLock.Locks.{
  Caller, enter_recovery_critical_section, exit_recovery_critical_section,
  exit_recovery_critical_section_nodes,
}
use ev.Sleeplock.{holdingsleep}
use ev.Bcache.{Buf, State, is_for, bget, brelse, put_back}
use ev.Bcache.Search.{find_cached-none, bget_lem, Got, Outcome}

abbrev pub IsCached : State → ℕ → ℕ → ℕ → Type 0
IsCached s dev n b = (contains b s.order ≡ true) × ((s.bufs b).dev ≡ dev) × ((s.bufs b).blockno ≡ n)

-- The device 0 is that of the buffers that were never used.
abbrev pub IsUnique : State → Type 0
IsUnique s = (dev n a b : ℕ) → dev ≢ 0 → IsCached s dev n a → IsCached s dev n b → a ≡ b

pub is_for_eq : (dev n : ℕ) (b : Buf) → b.dev ≡ dev → b.blockno ≡ n → is_for dev n b ≡ true
unfolding is_for
is_for_eq dev n b e f = ground arith

-- A buffer other than the one that `bget` gives belongs to the block that it belonged to.
IsCached-before :
    (s t : State) (b dev n a : ℕ) → Got s t b → a ≢ b → IsCached t dev n a → IsCached s dev n a
IsCached-before s t b dev n a g ne (m, d, k) =
    let e = g.others a ne in (rw (← g.order_eq) m, rw (← e) d, rw (← e) k)

pub given_key :
    (me dev n b : ℕ) (s t : State)
    → Outcome me dev n b s t
    → ((t.bufs b).dev ≡ dev) × ((t.bufs b).blockno ≡ n)
given_key me dev n b s t (inl (e, w)) = rw w.changed (w.dev_eq, w.blockno_eq)
given_key me dev n b s t (inr (e, w)) = rw w.changed (refl, refl)

-- Another buffer for the same block would have been found.
alone :
    (me dev n b a : ℕ) (s t : State)
    → IsUnique s
    → dev ≢ 0
    → Got s t b
    → Outcome me dev n b s t
    → IsCached s dev n a
    → a ≡ b
alone me dev n b a s t u nz g (inl (e, w)) m = u dev n a b nz m (g.listed, w.dev_eq, w.blockno_eq)
alone me dev n b a s t u nz g (inr (e, w)) (m, d, k) =
    let no = find_cached-none dev n s.bufs s.order a e m in
    let yes = is_for_eq dev n (s.bufs a) d k in absurd (ground arith)

other_is_given :
    (me dev n b : ℕ) (s t : State) (dev' n' y : ℕ)
    → IsUnique s
    → Got s t b
    → Outcome me dev n b s t
    → dev' ≢ 0
    → y ≢ b
    → IsCached t dev' n' b
    → IsCached t dev' n' y
    → y ≡ b
other_is_given me dev n b s t dev' n' y u g o nz ne (mb, db, kb) cy =
    let (d, k) = given_key me dev n b s t o in
    let ed : dev' ≡ dev = cc in
    let ek : n' ≡ n = cc in
    let old : IsCached s dev n y = IsCached-before s t b dev n y g ne (rw (← ed, ← ek) cy) in
    alone me dev n b y s t u (rw (← ed) nz) g o old

-- After `bget`, too, no two buffers of the list belong to the same block.
pub bget-IsUnique :
    (c : Caller) (me dev n b : ℕ) (s t : State)
    → IsUnique s
    → bget c me dev n s ≡ ok (b, t)
    → IsUnique t
bget-IsUnique c me dev n b s t u h dev' n' x y nz cx cy =
    let (g, o) = bget_lem c me dev n b s t h in
    elim (Bool-cases (x == b)) [
      | inl ex ↦
          let e : x ≡ b = ground arith in
          elim (Bool-cases (y == b)) [
            | inl ey ↦ ground arith
            | inr ey ↦ sym (
                rw e (
                  other_is_given me dev n b s t dev' n' y u g o nz (ground arith) (rw (← e) cx) cy))
          ]
      | inr ex ↦ elim (Bool-cases (y == b)) [
        | inl ey ↦
            let e : y ≡ b = ground arith in
            rw e (other_is_given me dev n b s t dev' n' x u g o nz (ground arith) (rw (← e) cy) cx)
        | inr ey ↦
            u dev' n' x y nz (IsCached-before s t b dev' n' x g (ground arith) cx)
              (IsCached-before s t b dev' n' y g (ground arith) cy)
      ]
    ]

contains-delete : (a b : ℕ) (xs : List ℕ) → a ≢ b → contains a (View.delete b xs) ≡ contains a xs
unfolding contains View.delete
contains-delete a b [] ne = refl
contains-delete a b (x ∷ xs) ne = ground (arith, contains-delete a b xs ne)

contains-put_back :
    (a b : ℕ) (s : State)
    → contains b s.order ≡ true
    → contains a (put_back b s).order ≡ contains a s.order
unfolding put_back contains
contains-put_back a b s m = elim (Bool-cases (b == a)) [
  | inl e ↦ let e' : b ≡ a = ground arith in ground arith
  | inr e ↦ ground (arith, contains-delete a b s.order)
]

pub put_back-fields :
    (a b : ℕ) (s : State)
    → (((put_back b s).bufs a).dev ≡ (s.bufs a).dev)
      × (((put_back b s).bufs a).blockno ≡ (s.bufs a).blockno)
      × (((put_back b s).bufs a).valid ≡ (s.bufs a).valid)
      × (((put_back b s).bufs a).words ≡ (s.bufs a).words)
unfolding put_back upd
put_back-fields a b s = ground arith

-- What `brelse` leaves.
pub brelse_lem :
    (c : Caller) (me b : ℕ) (s t : State)
    → brelse c me b s ≡ ok t
    → (holdingsleep me (s.bufs b).lock ≡ true)
      × (t.bufs ≡ (put_back b s).bufs)
      × (t.order ≡ (put_back b s).order)
      × (t.disk ≡ s.disk)
unfolding brelse put_back
brelse_lem c me b s t h = elim (Bool-cases (holdingsleep me (s.bufs b).lock)) [
  | inr e ↦ absurd (ground arith)
  | inl e ↦
      let (l, e0, h0) =
        >>=-eq-ok (enter_recovery_critical_section c rl_flag_bcache 0 s.locks)
          (λ l. exit_recovery_critical_section_nodes c Kind.buf b l >>= λ l1.
            exit_recovery_critical_section c rl_flag_bcache 0 l1 >>= λ l2.
            ok (record (put_back b s) { locks = l2 }))
          {t = t} (ground arith) in
      let (l1, e1, h1) = >>=-eq-ok (exit_recovery_critical_section_nodes c Kind.buf b l) _ h0 in
      let (l2, e2, h2) = >>=-eq-ok (exit_recovery_critical_section c rl_flag_bcache 0 l1) _ h1 in
      ground arith
]

pub back :
    (b : ℕ) (s t : State)
    → t.bufs ≡ (put_back b s).bufs
    → ((a : ℕ) → contains a t.order ≡ contains a s.order)
    → (dev n x : ℕ) → IsCached t dev n x
    → IsCached s dev n x
back b s t eb same dev n x (m, d, k) =
    let (fd, fk, fv, fw) = put_back-fields x b s in
    (rw (← same x) m, rw (← fd) (rw eb at d), rw (← fk) (rw eb at k))

-- Also after `brelse` no two buffers of the list belong to the same block, and the list has the same
-- buffers.
pub brelse-IsUnique :
    (c : Caller) (me b : ℕ) (s t : State)
    → IsUnique s
    → contains b s.order ≡ true
    → brelse c me b s ≡ ok t
    → IsUnique t × ((a : ℕ) → contains a t.order ≡ contains a s.order)
brelse-IsUnique c me b s t u m h =
    let (held, eb, eo, ed) = brelse_lem c me b s t h in
    let same : (a : ℕ) → contains a t.order ≡ contains a s.order =
      λ a. rw eo (contains-put_back a b s m) in
    (
      λ dev n x y nz cx cy.
          u dev n x y nz (back b s t eb same dev n x cx) (back b s t eb same dev n y cy),
      same,
    )
