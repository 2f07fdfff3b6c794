-- ===== src/Proc/Wakeup.antt =====
-- kernel/proc.c: `exit` and `wait`, about processes that sleep while a child is a zombie.
use ev.Prelude.{
  ℕ, ◌≡◌, ◌≢◌, refl, ap, ◌∙◌, ◌⊎◌, inl, inr, Bool, true, false, ◌&&◌, List, some, ◌==◌, map, set,
  arith, Bool-cases,
}
use ev.Prelude.Int.{ℤ}
use ev.Proc.{
  Procstate, Chan, Proc, Procs, at, blank, is_sleeping, is_zombie, is_child, same_chan, put, wake,
  wakeup1, adopt, reparent, exit_finish,
}
use ev.Proc.Table.{at-set_ne, at-set_self, at-map}

-- A process that sleeps in `wait`, and a zombie that waits for its parent.
unfoldable pub in_wait : ℕ → Proc → Bool
in_wait i p = is_sleeping p && same_chan p.chan (Chan.process i)

unfoldable pub dead_child : ℕ → Proc → Bool
dead_child i p = is_child i p && is_zombie p

abbrev pub IsAwake : ℕ → List Proc → Type 0
IsAwake init t = (i j : ℕ) → i ≢ init → in_wait i (at t i) ≡ true → dead_child i (at t j) ≡ false

-- No new process waits, and there is no new zombie but for `initproc`.
record Weaker (init : ℕ) (t u : List Proc) : Type 0 where
  waits : (i : ℕ) → in_wait i (at u i) ≡ true → in_wait i (at t i) ≡ true
  dead : (i j : ℕ) → i ≢ init → dead_child i (at u j) ≡ true → dead_child i (at t j) ≡ true

Weaker-IsAwake : (init : ℕ) (t u : List Proc) → Weaker init t u → IsAwake init t → IsAwake init u
Weaker-IsAwake init t u w a i j ne h = elim (Bool-cases (dead_child i (at u j))) [
  | inr e ↦ e
  | inl e ↦ absurd (ground (arith, a i j ne (w.waits i h), w.dead i j ne e))
]

-- A change of one entry.
set-Weaker :
    (init : ℕ) (t : List Proc) (k : ℕ) (p : Proc)
    → (in_wait k p ≡ true → in_wait k (at t k) ≡ true)
    → ((i : ℕ) → dead_child i p ≡ true → dead_child i (at t k) ≡ true)
    → Weaker init t (set t k p)
set-Weaker init t k p fw fd = elim (at-set_self t k p) [
  | inr (e, b) ↦ rw e (record { waits = λ i h. h; dead = λ i j ne h. h })
  | inl e ↦ record {
    waits = λ i. elim (Bool-cases (i == k)) [
      | inl b ↦ let q : i ≡ k = ground arith in rw q (rw e fw)
      | inr b ↦
          let q : at (set t k p) i ≡ at t i = at-set_ne t k i p (ground arith) in rw q (λ h. h)
    ];
    dead = λ i j ne. elim (Bool-cases (j == k)) [
      | inl b ↦ let q : j ≡ k = ground arith in rw q (rw e (fd i))
      | inr b ↦
          let q : at (set t k p) j ≡ at t j = at-set_ne t k j p (ground arith) in rw q (λ h. h)
    ];
  }
]

-- A change of one entry to one that does not wait and is no zombie.
pub set-IsAwake :
    (init : ℕ) (t : List Proc) (k : ℕ) (p : Proc)
    → IsAwake init t
    → in_wait k p ≡ false
    → ((i : ℕ) → dead_child i p ≡ true → dead_child i (at t k) ≡ true)
    → IsAwake init (set t k p)
set-IsAwake init t k p a idle fd =
    Weaker-IsAwake init t (set t k p) (set-Weaker init t k p (λ h. absurd (ground arith)) fd) a

map-Weaker :
    (init : ℕ) (t : List Proc) (f : Proc → Proc)
    → f blank ≡ blank
    → ((i : ℕ) (p : Proc) → in_wait i (f p) ≡ true → in_wait i p ≡ true)
    → ((i : ℕ) (p : Proc) → i ≢ init → dead_child i (f p) ≡ true → dead_child i p ≡ true)
    → Weaker init t (map f t)
map-Weaker init t f b fw fd = record {
  waits = λ i. rw (at-map f t i b) (fw i (at t i));
  dead = λ i j ne. rw (at-map f t j b) (fd i (at t j) ne);
}

wake-in_wait : (c : Chan) (i : ℕ) (p : Proc) → in_wait i (wake c p) ≡ true → in_wait i p ≡ true
unfolding in_wait
wake-in_wait c i p h = ground arith

wake-dead_child :
    (c : Chan) (i : ℕ) (p : Proc) → dead_child i (wake c p) ≡ true → dead_child i p ≡ true
unfolding dead_child
wake-dead_child c i p h = ground arith

adopt-in_wait : (me init i : ℕ) (p : Proc) → in_wait i (adopt me init p) ≡ true → in_wait i p ≡ true
unfolding in_wait
adopt-in_wait me init i p h = ground arith

adopt-dead_child :
    (me init i : ℕ) (p : Proc)
    → i ≢ init
    → dead_child i (adopt me init p) ≡ true
    → dead_child i p ≡ true
unfolding dead_child
adopt-dead_child me init i p ne h = ground arith

pub wakeup-IsAwake :
    (init : ℕ) (c : Chan) (t : List Proc) → IsAwake init t → IsAwake init (map (wake c) t)
wakeup-IsAwake init c t a =
    Weaker-IsAwake init t (map (wake c) t)
      (map-Weaker init t (wake c) (ground arith) (λ i p. wake-in_wait c i p)
        (λ i p ne. wake-dead_child c i p))
      a

reparent-IsAwake :
    (init me : ℕ) (t : List Proc) → IsAwake init t → IsAwake init (map (adopt me init) t)
reparent-IsAwake init me t a =
    Weaker-IsAwake init t (map (adopt me init) t)
      (map-Weaker init t (adopt me init) (ground arith) (λ i p. adopt-in_wait me init i p)
        (λ i p ne. adopt-dead_child me init i p ne))
      a

pub wakeup1-IsAwake :
    (init k : ℕ) (t : List Proc)
    → IsAwake init t
    → IsAwake init (set t k (wake (Chan.process k) (at t k)))
wakeup1-IsAwake init k t a =
    Weaker-IsAwake init t (set t k (wake (Chan.process k) (at t k)))
      (set-Weaker init t k (wake (Chan.process k) (at t k))
        (wake-in_wait (Chan.process k) k (at t k))
        (λ i. wake-dead_child (Chan.process k) i (at t k)))
      a

-- A new zombie, whose parent does not wait.
zombie-IsAwake :
    (init : ℕ) (t : List Proc) (k : ℕ) (p : Proc)
    → IsAwake init t
    → in_wait k p ≡ false
    → ((i : ℕ) → i ≢ init → dead_child i p ≡ true → in_wait i (at t i) ≡ false)
    → IsAwake init (set t k p)
zombie-IsAwake init t k p a idle parent = elim (at-set_self t k p) [
  | inr (e, b) ↦ rw e a
  | inl e ↦ λ i j ne h. elim (Bool-cases (i == k)) [
    | inl b ↦ let q : i ≡ k = ground arith in absurd (ground arith)
    | inr b ↦
        let waits : in_wait i (at t i) ≡ true = rw (at-set_ne t k i p (ground arith)) at h in
        elim (Bool-cases (j == k)) [
          | inr d ↦ rw (at-set_ne t k j p (ground arith)) (a i j ne waits)
          | inl d ↦
              let q : j ≡ k = ground arith in
              rw q (
                rw e (elim (Bool-cases (dead_child i p)) [
                  | inr f ↦ f
                  | inl f ↦ absurd (ground (arith, parent i ne f))
                ]))
        ]
  ]
]

-- A process that begins to wait without a zombie among its children.
pub waiting-IsAwake :
    (init : ℕ) (t : List Proc) (k : ℕ) (p : Proc)
    → IsAwake init t
    → is_zombie p ≡ false
    → ((j : ℕ) → dead_child k (at t j) ≡ false)
    → IsAwake init (set t k p)
unfolding dead_child
waiting-IsAwake init t k p a alive none_dead = elim (at-set_self t k p) [
  | inr (e, b) ↦ rw e a
  | inl e ↦ λ i j ne h. elim (Bool-cases (j == k)) [
    | inl d ↦ let q : j ≡ k = ground arith in rw q (rw e (ground arith))
    | inr d ↦ rw (at-set_ne t k j p (ground arith)) (elim (Bool-cases (i == k)) [
      | inl b ↦ let q : i ≡ k = ground arith in rw q (none_dead j)
      | inr b ↦ a i j ne (rw (at-set_ne t k i p (ground arith)) at h)
    ])
  ]
]

woken :
    (t : List Proc) (k : ℕ) → in_wait k (at (set t k (wake (Chan.process k) (at t k))) k) ≡ false
unfolding in_wait
woken t k = elim (at-set_self t k (wake (Chan.process k) (at t k))) [
  | inl e ↦ rw e (ground arith)
  | inr (e, b) ↦ rw (e, b) refl
]

woken-parent :
    (t : List Proc) (k me : ℕ)
    → (at (set t k (wake (Chan.process k) (at t k))) me).parent ≡ (at t me).parent
woken-parent t k me = elim (Bool-cases (me == k)) [
  | inr b ↦ ap (λ p. p.parent) (at-set_ne t k me (wake (Chan.process k) (at t k)) (ground arith))
  | inl b ↦
      let q : me ≡ k = ground arith in
      elim (at-set_self t k (wake (Chan.process k) (at t k))) [
        | inl e ↦ rw q (rw e (ground arith))
        | inr (e, d) ↦ rw e refl
      ]
]

-- The parent of a process that exits is the one that is woken, or `initproc`.
exit-parent :
    (t : List Proc) (init me k i : ℕ) (p : Proc)
    → ((at t me).parent ≡ some k) ⊎ ((at t me).parent ≡ some init)
    → p.parent ≡ (adopt me init (at t me)).parent
    → i ≢ init
    → dead_child i p ≡ true
    → i ≡ k
unfolding dead_child
exit-parent t init me k i p (inl h) e ne d = ground arith
exit-parent t init me k i p (inr h) e ne d = absurd (ground arith)

abbrev pub IsCalm : Procs → Type 0
IsCalm s = IsAwake s.initproc s.table

pub exit-IsCalm :
    (status : ℤ) (me k : ℕ) (s : Procs)
    → ((at s.table me).parent ≡ some k) ⊎ ((at s.table me).parent ≡ some s.initproc)
    → IsCalm s
    → IsCalm (exit_finish status me k s)
unfolding exit_finish reparent wakeup1 put in_wait
exit-IsCalm status me k s h a =
    let t1 = map (adopt me s.initproc) s.table in
    let t2 = set t1 k (wake (Chan.process k) (at t1 k)) in
    let a2 : IsAwake s.initproc t2 =
      wakeup1-IsAwake s.initproc k t1 (reparent-IsAwake s.initproc me s.table a) in
    let p = record (at t2 me) { xstate = status; state = Procstate.zombie } in
    let pe : p.parent ≡ (adopt me s.initproc (at s.table me)).parent =
      woken-parent t1 k me
      ∙ ap (λ q. q.parent) (at-map (adopt me s.initproc) s.table me (ground arith)) in
    zombie-IsAwake s.initproc t2 me p a2 refl
      (λ i ne d. rw (exit-parent s.table s.initproc me k i p h pe ne d) (woken t1 k))
