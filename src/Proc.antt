-- ===== src/Proc.antt =====
-- kernel/proc.c: the table of processes, with the fields that decide who runs, sleeps and is waited
-- for. A process is its place in the table. What `fork`, `exit` and `freeproc` do with memory, files
-- and registers is left out; each function runs under the locks of the processes it changes and is one
-- step, except `exit`, which has two.
pub mod Table
pub mod Step
pub mod Wakeup
pub mod Calm
pub mod Reap
mod Tests
use ev.Prelude.{
  ℕ, zero, suc, ◌+◌, ◌≡◌, Bool, true, false, not, ◌&&◌, ◌||◌, List, [], ◌∷◌, Option, none, some,
  ◌==◌, if◌then◌else◌, map, get_or, set,
}
use ev.Prelude.Int.{ℤ, pos, negsuc}

-- `enum procstate`.
pub data Procstate : Type 0 where
  unused sleeping runnable running zombie recovering : Procstate

-- A channel is an address, and that of a process in the table is told apart.
pub data Chan : Type 0 where
  nowhere : Chan
  process address : ℕ → Chan

pub record Proc : Type 0 where
  pub state : Procstate
  pub parent : Option ℕ
  pub chan : Chan
  pub killed : Bool
  pub xstate : ℤ
  pub pid : ℕ

pub record Procs : Type 0 where
  pub table : List Proc
  pub nextpid : ℕ
  pub initproc : ℕ

abbrev pub is_unused : Proc → Bool
is_unused p = elim p.state [ Procstate.unused ↦ true | _ ↦ false ]

abbrev pub is_sleeping : Proc → Bool
is_sleeping p = elim p.state [ Procstate.sleeping ↦ true | _ ↦ false ]

abbrev pub is_runnable : Proc → Bool
is_runnable p = elim p.state [ Procstate.runnable ↦ true | _ ↦ false ]

abbrev pub is_running : Proc → Bool
is_running p = elim p.state [ Procstate.running ↦ true | _ ↦ false ]

abbrev pub is_zombie : Proc → Bool
is_zombie p = elim p.state [ Procstate.zombie ↦ true | _ ↦ false ]

abbrev pub same_chan : Chan → Chan → Bool
same_chan Chan.nowhere Chan.nowhere = true
same_chan (Chan.process a) (Chan.process b) = a == b
same_chan (Chan.address a) (Chan.address b) = a == b
same_chan c d = false

abbrev pub is_child : ℕ → Proc → Bool
is_child me p = elim p.parent [ none ↦ false | some k ↦ k == me ]

-- An entry of zeros.
abbrev pub blank : Proc
blank = record {
  state = Procstate.unused;
  parent = none;
  chan = Chan.nowhere;
  killed = false;
  xstate = pos 0;
  pid = 0;
}

abbrev pub at : List Proc → ℕ → Proc
at t i = get_or t i blank

-- The loops that stop at the first entry with a property.
unfoldable pub find_index : (Proc → Bool) → List Proc → Option ℕ
find_index test [] = none
find_index test (p ∷ ps) =
    if test p then some 0 else elim (find_index test ps) [ none ↦ none | some i ↦ some (suc i) ]

unfoldable pub put : ℕ → Proc → Procs → Procs
put i p s = record s { table = set s.table i p }

unfoldable pub allocpid : Procs → ℕ × Procs
allocpid s = (s.nextpid, record s { nextpid = s.nextpid + 1 })

-- The new process stays UNUSED; `has_page` says that `kalloc` has a page for the trapframe.
unfoldable pub allocproc : Bool → Procs → Option ℕ × Procs
unfolding find_index put allocpid
allocproc has_page s = elim (find_index is_unused s.table) [
  | none ↦ (none, s)
  | some i ↦
      let (pid, t) = allocpid s in
      (if has_page then some i else none, put i (record (at t.table i) { pid = pid }) t)
]

unfoldable pub freeproc : ℕ → Procs → Procs
unfolding put
freeproc i s = put i blank s

-- `copied` says that `uvmcopy` succeeds. The result is the pid or -1.
unfoldable pub fork : (has_page copied : Bool) → ℕ → Procs → ℤ × Procs
unfolding allocproc freeproc put
fork has_page copied me s =
    let (o, t) = allocproc has_page s in
    elim o [
      | none ↦ (negsuc 0, t)
      | some i ↦ if not copied then (negsuc 0, freeproc i t) else (
        pos (at t.table i).pid,
        put i (record (at t.table i) { parent = some me; state = Procstate.runnable }) t,
      )
    ]

abbrev pub wake : Chan → Proc → Proc
wake chan p =
    if is_sleeping p && same_chan p.chan chan then record p { state = Procstate.runnable } else p

unfoldable pub wakeup : Chan → Procs → Procs
wakeup chan s = record s { table = map (wake chan) s.table }

unfoldable pub wakeup1 : ℕ → Procs → Procs
unfolding put
wakeup1 i s = put i (wake (Chan.process i) (at s.table i)) s

abbrev pub strike : Proc → Proc
strike p =
    if is_sleeping p
    then record p { killed = true; state = Procstate.runnable }
    else record p { killed = true }

unfoldable pub kill : ℕ → Procs → ℤ × Procs
unfolding find_index put
kill pid s = elim (find_index (λ p. p.pid == pid) s.table) [
  | none ↦ (negsuc 0, s)
  | some i ↦ (pos 0, put i (strike (at s.table i)) s)
]

-- `sleep` up to `sched`, and behind it.
unfoldable pub sleep : ℕ → Chan → Procs → Procs
unfolding put
sleep me chan s = put me (record (at s.table me) { chan = chan; state = Procstate.sleeping }) s

unfoldable pub tidy : ℕ → Procs → Procs
unfolding put
tidy me s = put me (record (at s.table me) { chan = Chan.nowhere }) s

unfoldable pub yield : ℕ → Procs → Procs
unfolding put
yield me s = put me (record (at s.table me) { state = Procstate.runnable }) s

-- The body of the loop of `scheduler`, up to `swtch`.
unfoldable pub schedule : ℕ → Procs → Procs
unfolding put
schedule i s =
    if is_runnable (at s.table i)
    then put i (record (at s.table i) { state = Procstate.running }) s
    else s

-- What the NMI handler and `cleanup_after_recovery` set.
unfoldable pub set_state : Procstate → ℕ → Procs → Procs
unfolding put
set_state st me s = put me (record (at s.table me) { state = st }) s

abbrev pub adopt : (me initproc : ℕ) → Proc → Proc
adopt me initproc p = if is_child me p then record p { parent = some initproc } else p

unfoldable pub reparent : ℕ → Procs → Procs
reparent me s = record s { table = map (adopt me s.initproc) s.table }

-- The end of `exit`, from the lock of the parent that was read before.
unfoldable pub exit_finish : ℤ → (me original_parent : ℕ) → Procs → Procs
unfolding reparent wakeup1 put
exit_finish status me original_parent s =
    let t = wakeup1 original_parent (reparent me s) in
    put me (record (at t.table me) { xstate = status; state = Procstate.zombie }) t

-- How one round of `wait` ends; `failed` is -1.
pub data Waited : Type 0 where
  reaped : (pid : ℕ) → (status : ℤ) → Procs → Waited
  failed : Waited
  sleeps : Procs → Waited

-- `copied` is what `copyout` of the status gives.
unfoldable pub wait : Bool → ℕ → Procs → Waited
unfolding find_index freeproc sleep
wait copied me s = elim (find_index (λ p. is_child me p && is_zombie p) s.table) [
  | some i ↦
      if not copied then failed else reaped (at s.table i).pid (at s.table i).xstate (freeproc i s)
  | none ↦ elim (find_index (is_child me) s.table) [
    | none ↦ failed
    | some i ↦ if (at s.table me).killed then failed else sleeps (sleep me (Chan.process me) s)
  ]
]
