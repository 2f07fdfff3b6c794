-- ===== src/Proc/Calm.antt =====
-- kernel/proc.c: the steps, and the parents of zombies.
use ev.Prelude.{
  ℕ, suc, ◌≡◌, refl, inl, inr, Bool, true, false, not, ◌&&◌, List, Option, none, some, ◌==◌,
  if◌then◌else◌, set, arith, Bool-cases, Option-cases,
}
use ev.Prelude.Int.{ℤ, pos, negsuc}
use ev.Proc.{
  Procstate, Chan, Proc, Procs, at, blank, is_running, is_unused, is_sleeping, is_runnable,
  is_zombie, is_child, find_index, put, allocpid, allocproc, freeproc, fork, wakeup, wakeup1,
  strike, kill, sleep, tidy, yield, schedule, set_state, wait, reaped, sleeps,
}
use ev.Proc.Table.{find_index-none, find_index-some}
use ev.Proc.Step.{Step, Steps}
use ev.Proc.Wakeup.{
  IsAwake, IsCalm, in_wait, dead_child, set-IsAwake, wakeup-IsAwake, wakeup1-IsAwake,
  waiting-IsAwake, exit-IsCalm,
}

-- One entry gets a state in which a process neither waits nor is a zombie.
live-IsCalm :
    (k : ℕ) (p : Proc) (s : Procs)
    → IsCalm s
    → is_sleeping p ≡ false
    → is_zombie p ≡ false
    → IsCalm (put k p s)
unfolding put in_wait dead_child
live-IsCalm k p s a es ez =
    set-IsAwake s.initproc s.table k p a (ground arith) (λ i h. absurd (ground arith))

allocproc-IsCalm :
    (has_page : Bool) (s : Procs) (o : Option ℕ)
    → find_index is_unused s.table ≡ o
    → IsCalm s
    → IsCalm (allocproc has_page s).1
unfolding allocproc allocpid
allocproc-IsCalm has_page s none e a = rw (e, allocproc) a
allocproc-IsCalm has_page s (some i) e a =
    rw (e, allocproc)
      (live-IsCalm i (record (at s.table i) { pid = s.nextpid })
        (record s { nextpid = suc s.nextpid }) a
        (ground (arith, find_index-some is_unused s.table i e))
        (ground (arith, find_index-some is_unused s.table i e)))

fork_cases :
    (copied : Bool) (me : ℕ) (o : Option ℕ) (t : Procs)
    → IsCalm t
    → IsCalm
        (elim o as (λ x. ℤ × Procs) [
          | none ↦ (negsuc 0, t)
          | some i ↦ if not copied then (negsuc 0, freeproc i t) else (
            pos (at t.table i).pid,
            put i (record (at t.table i) { parent = some me; state = Procstate.runnable }) t,
          )
        ]).1
unfolding freeproc
fork_cases copied me none t a = a
fork_cases true me (some i) t a =
    live-IsCalm i (record (at t.table i) { parent = some me; state = Procstate.runnable }) t a refl
      refl
fork_cases false me (some i) t a = live-IsCalm i blank t a refl refl

fork-IsCalm :
    (has_page copied : Bool) (me : ℕ) (s : Procs) → IsCalm s → IsCalm (fork has_page copied me s).1
unfolding fork
fork-IsCalm has_page copied me s a =
    fork_cases copied me (allocproc has_page s).0 (allocproc has_page s).1
      (allocproc-IsCalm has_page s (find_index is_unused s.table) refl a)

strike-IsAwake :
    (init k : ℕ) (t : List Proc) → IsAwake init t → IsAwake init (set t k (strike (at t k)))
unfolding in_wait dead_child
strike-IsAwake init k t a =
    set-IsAwake init t k (strike (at t k)) a (ground arith) (λ i h. ground arith)

kill-IsCalm : (pid : ℕ) (s : Procs) → IsCalm s → IsCalm (kill pid s).1
unfolding kill put
kill-IsCalm pid s a = elim (Option-cases (find_index (λ p. p.pid == pid) s.table)) [
  | inl e ↦ rw (e, kill) a
  | inr (i, e) ↦ rw (e, kill) (strike-IsAwake s.initproc i s.table a)
]

schedule-IsCalm : (i : ℕ) (s : Procs) → IsCalm s → IsCalm (schedule i s)
unfolding schedule
schedule-IsCalm i s a = elim (Bool-cases (is_runnable (at s.table i))) [
  | inl e ↦ rw e (live-IsCalm i (record (at s.table i) { state = Procstate.running }) s a refl refl)
  | inr e ↦ rw e a
]

sleep-IsCalm : (me chan : ℕ) (s : Procs) → IsCalm s → IsCalm (sleep me (Chan.address chan) s)
unfolding sleep put in_wait dead_child
sleep-IsCalm me chan s a =
    set-IsAwake s.initproc s.table me
      (record (at s.table me) { chan = Chan.address chan; state = Procstate.sleeping }) a refl
      (λ i h. absurd (ground arith))

tidy-IsCalm :
    (me : ℕ) (s : Procs) → is_running (at s.table me) ≡ true → IsCalm s → IsCalm (tidy me s)
unfolding tidy
tidy-IsCalm me s r a =
    live-IsCalm me (record (at s.table me) { chan = Chan.nowhere }) s a (ground arith)
      (ground arith)

-- What `wait` leaves: the zombie's entry is free, or the caller sleeps and has no zombie.
reap-IsCalm :
    (copied : Bool) (me pid : ℕ) (status : ℤ) (s t : Procs)
    → wait copied me s ≡ reaped pid status t
    → IsCalm s
    → IsCalm t
unfolding wait freeproc
reap-IsCalm copied me pid status s t h a =
    elim (Option-cases (find_index (λ p. is_child me p && is_zombie p) s.table)) [
      | inr (i, e) ↦
          elim copied as (λ c. copied ≡ c → IsCalm t) [
            | true ↦ λ c.
                let q : put i blank s ≡ t = ground arith in
                rw (← q) (live-IsCalm i blank s a refl refl)
            | false ↦ λ c. absurd (ground arith)
          ]
            refl
      | inl e ↦ elim (Option-cases (find_index (is_child me) s.table)) [
        | inl f ↦ absurd (ground arith)
        | inr (i, f) ↦ elim (Bool-cases (at s.table me).killed) [
          | inl k ↦ absurd (ground arith)
          | inr k ↦ absurd (ground arith)
        ]
      ]
    ]

wait_sleeps :
    (copied : Bool) (me : ℕ) (s t : Procs)
    → wait copied me s ≡ sleeps t
    → (find_index (λ p. is_child me p && is_zombie p) s.table ≡ none)
      × (sleep me (Chan.process me) s ≡ t)
unfolding wait
wait_sleeps copied me s t h =
    elim (Option-cases (find_index (λ p. is_child me p && is_zombie p) s.table)) [
      | inr (i, e) ↦ elim (Bool-cases copied) [
        | inl c ↦ absurd (ground arith)
        | inr c ↦ absurd (ground arith)
      ]
      | inl e ↦ elim (Option-cases (find_index (is_child me) s.table)) [
        | inl f ↦ absurd (ground arith)
        | inr (i, f) ↦ elim (Bool-cases (at s.table me).killed) [
          | inl k ↦ absurd (ground arith)
          | inr k ↦ (e, ground arith)
        ]
      ]
    ]

wait-IsCalm :
    (copied : Bool) (me : ℕ) (s t : Procs) → wait copied me s ≡ sleeps t → IsCalm s → IsCalm t
unfolding sleep put dead_child
wait-IsCalm copied me s t h a =
    let (e, q) = wait_sleeps copied me s t h in
    rw (← q) (
      waiting-IsAwake s.initproc s.table me
        (record (at s.table me) { chan = Chan.process me; state = Procstate.sleeping }) a refl
        (λ j. find_index-none (λ p. is_child me p && is_zombie p) s.table j refl e))

-- Each step keeps the parents of zombies awake.
Step-IsCalm : (s t : Procs) → Step s t → IsCalm s → IsCalm t
unfolding wakeup put yield set_state wakeup1
Step-IsCalm s t (Step.fork_step has_page copied me r) a = fork-IsCalm has_page copied me s a
Step-IsCalm s t (Step.wakeup_step chan) a = wakeup-IsAwake s.initproc chan s.table a
Step-IsCalm s t (Step.kill_step pid) a = kill-IsCalm pid s a
Step-IsCalm s t (Step.sleep_step me chan r) a = sleep-IsCalm me chan s a
Step-IsCalm s t (Step.tidy_step me r) a = tidy-IsCalm me s r a
Step-IsCalm s t (Step.yield_step me r) a =
    live-IsCalm me (record (at s.table me) { state = Procstate.runnable }) s a refl refl
Step-IsCalm s t (Step.schedule_step i) a = schedule-IsCalm i s a
Step-IsCalm s t (Step.nmi_step me r) a =
    live-IsCalm me (record (at s.table me) { state = Procstate.recovering }) s a refl refl
Step-IsCalm s t (Step.recovered_step me r) a =
    live-IsCalm me (record (at s.table me) { state = Procstate.running }) s a refl refl
Step-IsCalm s t (Step.exit_init_step me r) a = wakeup1-IsAwake s.initproc s.initproc s.table a
Step-IsCalm s t (Step.exit_step status me k r h) a = exit-IsCalm status me k s h a
Step-IsCalm s t (Step.reap_step copied me pid status r h) a =
    reap-IsCalm copied me pid status s t h a
Step-IsCalm s t (Step.wait_step copied me r h) a = wait-IsCalm copied me s t h a

-- No wakeup is lost: whatever steps the processes take, a process other than `initproc` that sleeps in
-- `wait` has no zombie among its children, if that holds at the start.
pub Steps-IsCalm : (s t : Procs) → Steps s t → IsCalm s → IsCalm t
Steps-IsCalm s t Steps.done a = a
Steps-IsCalm s t (Steps.more {t = m} past step) a = Step-IsCalm m t step (Steps-IsCalm s m past a)
