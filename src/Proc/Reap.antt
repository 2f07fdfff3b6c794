-- ===== src/Proc/Reap.antt =====
-- kernel/proc.c: a process that exits is found by its parent in `wait`.
use ev.Prelude.{
  ℕ, zero, suc, ◌≡◌, ◌≢◌, ◌<◌, refl, ap, sym, ◌∙◌, ◌⊎◌, inl, inr, true, false, ◌&&◌, List, [], ◌∷◌,
  some, map, ◌==◌, set, length, arith, Bool-cases, Option-cases,
}
use mathlib.Core.Path.{subst}
use ev.Prelude.Int.{ℤ}
use ev.Proc.{
  Procstate, Chan, Proc, Procs, reaped, at, blank, wake, adopt, is_child, is_zombie, find_index,
  put, freeproc, reparent, wakeup1, exit_finish, wait,
}
use ev.Proc.Table.{at-set_ne, at-map, find_index-none, find_index-some}
use ev.Proc.Wakeup.{dead_child}

at-set_lt : (t : List Proc) (i : ℕ) (p : Proc) → i < length t → at (set t i p) i ≡ p
at-set_lt [] i p lt = absurd (omega arith)
at-set_lt (x ∷ xs) zero p lt = refl
at-set_lt (x ∷ xs) (suc i) p lt = at-set_lt xs i p (omega arith)

length-map : (f : Proc → Proc) (t : List Proc) → length (map f t) ≡ length t
length-map f [] = refl
length-map f (x ∷ xs) = ap suc (length-map f xs)

length-set : (t : List Proc) (i : ℕ) (p : Proc) → length (set t i p) ≡ length t
length-set [] i p = refl
length-set (x ∷ xs) zero p = refl
length-set (x ∷ xs) (suc i) p = ap suc (length-set xs i p)

-- What an exit leaves in an entry before the process becomes a zombie: its number and parent, and no new
-- zombie.
record Kept (me init : ℕ) (p q : Proc) : Type 0 where
  pid : q.pid ≡ p.pid
  parent : q.parent ≡ (adopt me init p).parent
  zombie : is_zombie q ≡ is_zombie p

adopt-Kept : (me init : ℕ) (p : Proc) → Kept me init p (adopt me init p)
adopt-Kept me init p = record { pid = ground arith; parent = refl; zombie = ground arith }

wake-Kept : (me init : ℕ) (c : Chan) (p q : Proc) → Kept me init p q → Kept me init p (wake c q)
wake-Kept me init c p q w = record {
  pid = ground (arith, w.pid);
  parent = ground (arith, w.parent);
  zombie = ground (arith, w.zombie);
}

-- The table behind the calls of `reparent` and `wakeup1`.
abbrev woken : (me init k : ℕ) → List Proc → List Proc
woken me init k t = let u = map (adopt me init) t in set u k (wake (Chan.process k) (at u k))

at-wake :
    (u : List Proc) (c : Chan) (k i : ℕ)
    → let v = set u k (wake c (at u k)) in (at v i ≡ at u i) ⊎ (at v i ≡ wake c (at u i))
at-wake [] c k i = inl refl
at-wake (x ∷ xs) c zero zero = inr refl
at-wake (x ∷ xs) c zero (suc i) = inl refl
at-wake (x ∷ xs) c (suc k) zero = inl refl
at-wake (x ∷ xs) c (suc k) (suc i) = at-wake xs c k i

woken-Kept : (me init k i : ℕ) (t : List Proc) → Kept me init (at t i) (at (woken me init k t) i)
woken-Kept me init k i t =
    let u = map (adopt me init) t in
    let e : at u i ≡ adopt me init (at t i) = at-map (adopt me init) t i (ground arith) in
    let a = adopt-Kept me init (at t i) in
    elim (at-wake u (Chan.process k) k i) [
      | inl x ↦ subst (Kept me init (at t i)) (sym (x ∙ e)) a
      | inr x ↦
          subst (Kept me init (at t i)) (sym (x ∙ ap (wake (Chan.process k)) e))
            (wake-Kept me init (Chan.process k) (at t i) (adopt me init (at t i)) a)
    ]

Kept-dead_child :
    (me init k : ℕ) (p q : Proc)
    → Kept me init p q
    → k ≢ init
    → dead_child k p ≡ false
    → dead_child k q ≡ false
unfolding dead_child
Kept-dead_child me init k p q w ne d = ground (arith, w.parent, w.zombie)

-- The zombie that the first loop of `wait` finds when there is only one.
find_only :
    (k me : ℕ) (t : List Proc)
    → dead_child k (at t me) ≡ true
    → ((i : ℕ) → i ≢ me → dead_child k (at t i) ≡ false)
    → find_index (λ p. is_child k p && is_zombie p) t ≡ some me
unfolding dead_child
find_only k me t d alone = elim (Option-cases (find_index (λ p. is_child k p && is_zombie p) t)) [
  | inl e ↦ absurd (ground (arith, find_index-none (λ p. is_child k p && is_zombie p) t me refl e))
  | inr (i, e) ↦ elim (Bool-cases (i == me)) [
    | inl b ↦ ground arith
    | inr b ↦ absurd (
        ground
          (arith, find_index-some (λ p. is_child k p && is_zombie p) t i e, alone i (ground arith)))
  ]
]

-- When a process of the table has gone through the end of `exit`, a round of its parent's `wait` right
-- after it returns its number and status and leaves its entry of the table free and the others as they
-- are. The parent is neither the process itself nor `initproc`, had no other zombie among its children,
-- and its `copyout` succeeds.
pub wait-exit_finish :
    (status : ℤ) (me k : ℕ) (s : Procs)
    → me < length s.table
    → (at s.table me).parent ≡ some k
    → me ≢ k
    → k ≢ s.initproc
    → ((i : ℕ) → i ≢ me → dead_child k (at s.table i) ≡ false)
    → let t = exit_finish status me k s in
      (u : Procs) × (wait true k t ≡ reaped (at s.table me).pid status u)
      × (at u.table me ≡ blank)
      × ((i : ℕ) → i ≢ me → at u.table i ≡ at t.table i)
unfolding exit_finish reparent wakeup1 put wait freeproc dead_child
wait-exit_finish status me k s lt parent ne ni alone =
    let u = map (adopt me s.initproc) s.table in
    let t2 = woken me s.initproc k s.table in
    let w = woken-Kept me s.initproc k me s.table in
    let zombie = record (at t2 me) { xstate = status; state = Procstate.zombie } in
    let t3 = set t2 me zombie in
    let lt2 : me < length t2 =
      rw (length-set u k (wake (Chan.process k) (at u k)), length-map (adopt me s.initproc) s.table)
        lt in
    let here : at t3 me ≡ zombie = at-set_lt t2 me zombie lt2 in
    let mine : dead_child k (at t3 me) ≡ true = rw here (ground (arith, w.parent)) in
    let others : (i : ℕ) → i ≢ me → dead_child k (at t3 i) ≡ false = λ i d.
      rw (at-set_ne t2 me i zombie d) (
        Kept-dead_child me s.initproc k (at s.table i) (at t2 i)
          (woken-Kept me s.initproc k i s.table) ni (alone i d)) in
    let found = find_only k me t3 mine others in
    (
      record s { table = set t3 me blank },
      rw (found, wait)
          (rw here (ap (λ n. reaped n status (record s { table = set t3 me blank })) w.pid)),
      at-set_lt t3 me blank (rw (length-set t2 me zombie) lt2),
      λ i d. at-set_ne t3 me i blank d,
    )
