-- ===== src/Spinlock/Tests.antt =====
-- kernel/spinlock.c with one lock and one cpu.
use ev.Prelude.{◌≡◌, refl, true, false, none, some, ok}
use ev.Prelude.Int.{pos, succ, pred}
use ev.Spinlock.{Spinlock, Cpu, initlock, push_off, acquire, release}
use ev.Spinlock.Nest.{outside, settled, release-acquire}

abbrev cpu : Cpu
cpu = record { id = 1; intr = true; noff = pos 0; intena = false }

abbrev free : Spinlock
free = record { locked = false; cpu = none }

abbrev taken : Spinlock
taken = record { locked = true; cpu = some 1 }

acquired : acquire free cpu ≡ ok (taken, push_off cpu)
unfolding acquire push_off succ pred
acquired = refl

release-acquire_example :
    ((push_off cpu).intr ≡ false) × (release taken (push_off cpu) ≡ ok (initlock free, settled cpu))
release-acquire_example =
    release-acquire free taken cpu (push_off cpu) (outside 1 true false) acquired
