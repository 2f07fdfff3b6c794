-- ===== src/Tracker/Nmi.antt =====
-- kernel/nmi_handle.c: which handler an NMI goes to. `mem_nmi_handle_next` guards the choice: while it
-- is being made, another NMI finds `panic` there.
mod Tests
use ev.Prelude.{
  ℕ, zero, suc, ◌≡◌, ◌≢◌, refl, Bool, true, false, not, ◌&&◌, ◌||◌, List, [], ◌∷◌, ◌++◌, Option,
  none, some, if◌then◌else◌, Result, ok, panic, arith, Bool-cases, inl, inr,
}
use ev.Proc.{Procstate, Proc, is_unused}

-- The functions that `mem_nmi_handle_next` points to.
pub data Handler : Type 0 where
  panic_handler mem_nmi_handle_first mem_nmi_handle_follow : Handler

abbrev pub is_recovering : Proc → Bool
is_recovering p = elim p.state [ Procstate.recovering ↦ true | _ ↦ false ]

-- The loop of `nmi_handle` over the processes; `queued` says that `nmi_queue` is set.
unfoldable pub look_for_recovery : Bool → List Proc → Handler
look_for_recovery queued [] = Handler.panic_handler
look_for_recovery queued (p ∷ ps) =
    let rest = look_for_recovery queued ps in
    if is_unused p
    then rest
    else if is_recovering p || queued
    then Handler.mem_nmi_handle_follow
    else rest

-- The handler that is called, from the process on the cpu and the handler that was set before.
unfoldable pub nmi_handle : Option Proc → Bool → List Proc → Handler → Result Handler
unfolding look_for_recovery
nmi_handle me queued proc Handler.panic_handler = panic
nmi_handle none queued proc next = panic
nmi_handle (some p) queued proc next =
    if is_recovering p
    then panic
    else ok (elim (look_for_recovery queued proc) [
      | Handler.mem_nmi_handle_follow ↦ Handler.mem_nmi_handle_follow
      | _ ↦ Handler.mem_nmi_handle_first
    ])

unfoldable pub any_recovering : List Proc → Bool
any_recovering [] = false
any_recovering (p ∷ ps) = is_recovering p || any_recovering ps

unfoldable pub any_used : List Proc → Bool
any_used [] = false
any_used (p ∷ ps) = not (is_unused p) || any_used ps

look_for_recovery_lem :
    (queued : Bool) (proc : List Proc)
    → look_for_recovery queued proc ≡ (
        if any_recovering proc || (queued && any_used proc)
        then Handler.mem_nmi_handle_follow
        else Handler.panic_handler)
unfolding look_for_recovery any_recovering any_used
look_for_recovery_lem queued [] = ground arith
look_for_recovery_lem queued (p ∷ ps) = ground (arith, look_for_recovery_lem queued ps)

-- A process that is not recovering and meets an error while no other choice is being made follows the
-- recovery under way, if a process is recovering or the queue is set; only otherwise it is the first.
pub nmi_handle_lem :
    (p : Proc) (queued : Bool) (proc : List Proc) (next : Handler)
    → next ≢ Handler.panic_handler
    → is_recovering p ≡ false
    → any_used proc ≡ true
    → nmi_handle (some p) queued proc next
      ≡ ok (
          if any_recovering proc || queued
          then Handler.mem_nmi_handle_follow
          else Handler.mem_nmi_handle_first)
unfolding nmi_handle
nmi_handle_lem p queued proc Handler.panic_handler ne r u = absurd (ne refl)
nmi_handle_lem p queued proc Handler.mem_nmi_handle_first ne r u =
    ground (arith, look_for_recovery_lem queued proc)
nmi_handle_lem p queued proc Handler.mem_nmi_handle_follow ne r u =
    ground (arith, look_for_recovery_lem queued proc)
