-- ===== src/Spinlock/Nest.antt =====
-- kernel/spinlock.c: `pop_off` undoes `push_off`, as often as they are nested.
use ev.Prelude.{
  ℕ, zero, suc, ◌≡◌, refl, Bool, true, false, some, ==_refl, if◌then◌else◌, Result, ok, panic,
  asleep, ◌>>=◌, arith,
}
use ev.Prelude.Int.{pos, succ, pred}
use ev.Spinlock.{
  Spinlock, Cpu, initlock, is_zero, push_off, pop_off, is_held, holding, acquire, release,
}

-- A cpu as the code leaves it: within a section the interrupts are off.
pub data IsNested : Cpu → Type 0 where
  outside :
      (id : ℕ) (intr intena : Bool)
      → IsNested (record { id = id; intr = intr; noff = pos 0; intena = intena })
  inside :
      (id n : ℕ) (intena : Bool)
      → IsNested (record { id = id; intr = false; noff = pos (suc n); intena = intena })

-- Outside a section, `intena` is written by the next `push_off` before it is read.
unfoldable pub settled : Cpu → Cpu
unfolding is_zero
settled c = record c { intena = if is_zero c.noff then c.intr else c.intena }

pop_off-push_off : (c : Cpu) → IsNested c → pop_off (push_off c) ≡ ok (settled c)
unfolding pop_off push_off settled succ pred
pop_off-push_off _ (outside id intr intena) = refl
pop_off-push_off _ (inside id n intena) = refl

data IsInside : Cpu → Type 0 where
  section_of :
      (id n : ℕ) (intena : Bool)
      → IsInside (record { id = id; intr = false; noff = pos (suc n); intena = intena })

push_off-IsInside : (c : Cpu) → IsNested c → IsInside (push_off c)
unfolding push_off succ
push_off-IsInside _ (outside id intr intena) = section_of id 0 intr
push_off-IsInside _ (inside id n intena) = section_of id (suc n) intena

IsInside-IsNested : (c : Cpu) → IsInside c → IsNested c
IsInside-IsNested _ (section_of id n intena) = inside id n intena

pop_off-inside : (c : Cpu) → IsInside c → pop_off (push_off c) ≡ ok c
unfolding pop_off push_off succ pred
pop_off-inside _ (section_of id n intena) = refl

abbrev pub pushes : ℕ → Cpu → Cpu
pushes zero c = c
pushes (suc n) c = pushes n (push_off c)

abbrev pub pops : ℕ → Cpu → Result Cpu
pops zero c = ok c
pops (suc n) c = pops n c >>= pop_off

pops-inside : (n : ℕ) (c : Cpu) → IsInside c → pops n (pushes n c) ≡ ok c
pops-inside zero c w = refl
pops-inside (suc n) c w =
    let e = pops-inside n (push_off c) (push_off-IsInside c (IsInside-IsNested c w)) in
    rw e (pop_off-inside c w)

-- It takes as many `pop_off` to undo as many `push_off`: in between the interrupts are off, and then the
-- interrupts and `noff` are as before; outside of all sections, `intena` then says whether the interrupts
-- are on.
pub pops-pushes :
    (n : ℕ) (c : Cpu)
    → IsNested c
    → ((pushes (suc n) c).intr ≡ false) × (pops (suc n) (pushes (suc n) c) ≡ ok (settled c))
pops-pushes n c w =
    let i = push_off-IsInside c w in
    let e = pops-inside n (push_off c) i in
    (pushes_off n (push_off c) i, rw e (pop_off-push_off c w))
  where
    pushes_off : (n : ℕ) (c : Cpu) → IsInside c → (pushes n c).intr ≡ false
    pushes_off zero _ (section_of id n intena) = refl
    pushes_off (suc n) c w = pushes_off n (push_off c) (push_off-IsInside c (IsInside-IsNested c w))

section_off : (c : Cpu) → IsInside c → c.intr ≡ false
section_off _ (section_of id n intena) = refl

holding-inside : (lk : Spinlock) (c : Cpu) → IsInside c → holding lk c ≡ ok (is_held c.id lk, c)
unfolding holding
holding-inside lk c w = let e = pop_off-inside c w in rw e refl

id_kept : (c : Cpu) → (push_off c).id ≡ c.id
unfolding push_off
id_kept c = refl

held_after : (id : ℕ) → is_held id (record { locked = true; cpu = some id }) ≡ true
unfolding is_held
held_after id = rw (==_refl id) refl

got :
    (b b' : Bool) (lk' x : Spinlock) (d y : Cpu)
    → ◌≡◌ {A = Result (Spinlock × Cpu)}
        (if b then panic else if b' then asleep else ok (x, y))
        (ok (lk', d))
    → (lk' ≡ x) × (d ≡ y)
got true b' lk' x d y h = absurd (ground arith)
got false true lk' x d y h = absurd (ground arith)
got false false lk' x d y h = ground arith

acquire-eq :
    (lk lk' : Spinlock) (c d : Cpu)
    → IsNested c
    → acquire lk c ≡ ok (lk', d)
    → (lk' ≡ record { locked = true; cpu = some c.id }) × (d ≡ push_off c)
unfolding acquire
acquire-eq lk lk' c d w h =
    let e = holding-inside lk (push_off c) (push_off-IsInside c w) in
    got (is_held (push_off c).id lk) lk.locked lk' (record { locked = true; cpu = some c.id }) d
      (push_off c) (rw (e, acquire) at h)

-- `release` after a successful `acquire` does not panic: the lock is free again, and the interrupts and
-- `noff` of the cpu are as before. `intena` is as before within a section, and outside of all sections it
-- then says whether the interrupts are on. Between the two the interrupts are off.
pub release-acquire :
    (lk lk' : Spinlock) (c d : Cpu)
    → IsNested c
    → acquire lk c ≡ ok (lk', d)
    → (d.intr ≡ false) × (release lk' d ≡ ok (initlock lk, settled c))
unfolding release initlock
release-acquire lk lk' c d w h =
    let (p, q) = acquire-eq lk lk' c d w h in
    let i = push_off-IsInside c w in
    let e = holding-inside (record { locked = true; cpu = some c.id }) (push_off c) i in
    let f = pop_off-push_off c w in
    rw (p, q) (section_off (push_off c) i, rw (e, id_kept c, held_after c.id, f) refl)
