-- ===== src/Spinlock.antt =====
-- kernel/spinlock.c: spinlocks, and the nesting of the sections without interrupts. `asleep` stands for
-- a spin that has to wait for another cpu.
pub mod Nest
mod Tests
use ev.Prelude.{
  ℕ, zero, suc, ◌≡◌, Bool, true, false, ◌&&◌, not, Option, none, some, ◌==◌, if◌then◌else◌, Result,
  ok, panic, asleep, ◌>>=◌,
}
use ev.Prelude.Int.{ℤ, pos, negsuc, succ, pred, is_neg}

-- `struct spinlock` without its name; `cpu` is `lk->cpu`, with `none` for 0.
pub record Spinlock : Type 0 where
  pub locked : Bool
  pub cpu : Option ℕ

-- The cpu that runs: its number, whether its interrupts are on, and the two fields of `struct cpu`.
pub record Cpu : Type 0 where
  pub id : ℕ
  pub intr : Bool
  pub noff : ℤ
  pub intena : Bool

-- Without the entry in the M-List of spinlocks.
unfoldable pub initlock : Spinlock → Spinlock
initlock lk = record { locked = false; cpu = none }

unfoldable pub is_zero : ℤ → Bool
is_zero (pos zero) = true
is_zero (pos (suc n)) = false
is_zero (negsuc n) = false

unfoldable pub push_off : Cpu → Cpu
unfolding is_zero
push_off c = record c {
  intr = false;
  noff = succ c.noff;
  intena = if is_zero c.noff then c.intr else c.intena;
}

unfoldable pub pop_off : Cpu → Result Cpu
unfolding is_zero
pop_off c =
    if c.intr
    then panic
    else if is_neg (pred c.noff)
    then panic
    else ok (record c { noff = pred c.noff; intr = is_zero (pred c.noff) && c.intena })

-- `lk->locked && lk->cpu == mycpu()`.
unfoldable pub is_held : ℕ → Spinlock → Bool
is_held id lk = elim lk.cpu [ none ↦ false | some other ↦ lk.locked && other == id ]

unfoldable pub holding : Spinlock → Cpu → Result (Bool × Cpu)
unfolding push_off pop_off is_held
holding lk c = pop_off (push_off c) >>= λ d. ok (is_held c.id lk, d)

unfoldable pub acquire : Spinlock → Cpu → Result (Spinlock × Cpu)
unfolding push_off holding
acquire lk c = holding lk (push_off c) >>= λ (held, d).
    if held
    then panic
    else if lk.locked
    then asleep
    else ok (record { locked = true; cpu = some c.id }, d)

unfoldable pub release : Spinlock → Cpu → Result (Spinlock × Cpu)
unfolding holding pop_off
release lk c = holding lk c >>= λ (held, d).
    if not held then panic else pop_off d >>= λ e. ok (record { locked = false; cpu = none }, e)
