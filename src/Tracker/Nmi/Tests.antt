-- ===== src/Tracker/Nmi/Tests.antt =====
-- kernel/nmi_handle.c with two processes.
use ev.Prelude.{
  ◌≡◌, refl, true, false, ◌||◌, List, [], ◌∷◌, none, some, if◌then◌else◌, ok, panic, arith,
}
use ev.Prelude.Int.{pos}
use ev.Proc.{Procstate, Chan, Proc}
use ev.Tracker.Nmi.{Handler, nmi_handle, nmi_handle_lem, any_recovering, any_used}

abbrev proc_in : Procstate → Proc
proc_in state = record {
  state = state;
  parent = none;
  chan = Chan.nowhere;
  killed = false;
  xstate = pos 0;
  pid = 3;
}

abbrev both : List Proc
both = proc_in Procstate.running ∷ proc_in Procstate.recovering ∷ []

used : any_used both ≡ true
unfolding any_used
used = refl

nmi_handle_lem_example :
    nmi_handle (some (proc_in Procstate.running)) false both Handler.mem_nmi_handle_first
    ≡ ok (
        if any_recovering both || false
        then Handler.mem_nmi_handle_follow
        else Handler.mem_nmi_handle_first)
nmi_handle_lem_example =
    nmi_handle_lem (proc_in Procstate.running) false both Handler.mem_nmi_handle_first
      (ground arith) refl used

-- An error on a process that is recovering stops the system.
looping :
    nmi_handle (some (proc_in Procstate.recovering)) true both Handler.mem_nmi_handle_first ≡ panic
unfolding nmi_handle
looping = refl
