-- ===== src/Pipe.antt =====
-- kernel/pipe.c: the ring of a pipe, whose two counters are 32-bit numbers that wrap around. The lock
-- of the pipe makes the part of a call up to its return or its sleep one step.
pub mod Fifo
mod Tests
use ev.Prelude.{
  ℕ, zero, suc, ◌+◌, ◌%◌, ◌^◌, ◌≡◌, Bool, true, false, not, ◌&&◌, ◌||◌, List, [], ◌∷◌, Option, none,
  some, ◌==◌, if◌then◌else◌, get_or, set, length,
}
use ev.Prelude.Int.{ℤ, pos, negsuc}

abbrev pub pipesize : ℕ
pipesize = 512

-- `struct pipe` without its lock; `bytes` is its `data`.
pub record Pipe : Type 0 where
  pub bytes : List ℕ
  pub nread : ℕ
  pub nwrite : ℕ
  pub readopen : Bool
  pub writeopen : Bool

-- How a call leaves the lock: with its result, or asleep, with what is left to do.
pub data Progress (A : Type 0) : Type 0 where
  returns : ℤ → Progress A
  sleeps : A → Progress A

unfoldable pub is_full : Pipe → Bool
is_full p = p.nwrite == (p.nread + pipesize) % 2 ^ 32

unfoldable pub push : ℕ → Pipe → Pipe
push ch p = record p {
  bytes = set p.bytes (p.nwrite % pipesize) ch;
  nwrite = (p.nwrite + 1) % 2 ^ 32;
}

-- The loop of `pipewrite`: each entry of the list is what `copyin` gives for a byte, `none` its -1.
-- Woken, the writer goes on with the rest.
unfoldable pub pipewrite : Bool → ℕ → List (Option ℕ) → Pipe → Pipe × Progress (List (Option ℕ))
unfolding is_full push
pipewrite killed n [] p = (p, returns (pos n))
pipewrite killed n (none ∷ cs) p =
    if is_full p
    then (p, if not p.readopen || killed then returns (negsuc 0) else sleeps (none ∷ cs))
    else (p, returns (pos n))
pipewrite killed n (some ch ∷ cs) p =
    let rest = pipewrite killed n cs (push ch p) in
    if is_full p
    then (p, if not p.readopen || killed then returns (negsuc 0) else sleeps (some ch ∷ cs))
    else rest

-- The loop that copies out: each entry of the list says whether `copyout` goes well. A byte whose
-- copy fails is taken from the pipe and not counted.
unfoldable pub read_from : List Bool → Pipe → Pipe × List ℕ
read_from [] p = (p, [])
read_from (fine ∷ r) p =
    let q = record p { nread = (p.nread + 1) % 2 ^ 32 } in
    let (t, got) = read_from r q in
    if p.nread == p.nwrite
    then (p, [])
    else if fine
    then (t, get_or p.bytes (p.nread % pipesize) 0 ∷ got)
    else (q, [])

-- A reader of an empty pipe with a writer sleeps, or ends when it is killed. The bytes are what it
-- has copied to the user.
unfoldable pub piperead : Bool → List Bool → Pipe → Pipe × Progress (List Bool) × List ℕ
unfolding read_from
piperead killed fine p =
    if p.nread == p.nwrite && p.writeopen
    then (p, (if killed then returns (negsuc 0) else sleeps fine), [])
    else (let (q, got) = read_from fine p in (q, returns (pos (length got)), got))

-- `pipeclose`; the flag says that the pipe's page is freed.
unfoldable pub pipeclose : Bool → Pipe → Pipe × Bool
pipeclose writable p =
    let q = if writable then record p { writeopen = false } else record p { readopen = false } in
    (q, not q.readopen && not q.writeopen)
