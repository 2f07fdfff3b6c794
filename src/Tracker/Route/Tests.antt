-- ===== src/Tracker/Route/Tests.antt =====
-- The handlers' codes at a concrete call stack: process 3 was in sys_close.
use ev.Prelude.{ℕ, ◌≡◌, refl, true, false, List, [], ◌∷◌, none, some, set, replicate, ok}
use ev.Prelude.Int.{pos, negsuc, pred}
use ev.Policy.{is_enabled, Code, Mode, inside}
use ev.Policy.Tests.{lay}
use ev.Policy.Trap.{identify_nmi_occurred_trap}
use ev.Policy.Buf.{after_treatment_buf}
use ev.Policy.File.{treatment_code}
use ev.Policy.Inode.{after_treatment_inode}
use ev.Policy.Log.{after_treatment_log}
use ev.Policy.Console.{
  after_treatment_cons, after_treatment_pr, after_treatment_tickslock, treat_cons, treat_pr,
}
use ev.RecoveryLock.History.{history, put_history}
use ev.RecoveryLock.Locks.{
  State, Caller, RecoveryLock, release_recovery_lock, exit_rcs_after_recovery,
  exit_recovery_critical_section_all,
}
use ev.Tracker.Route.{route_buf, route_file, route_inode, route_log, route_locks}
use ev.Tracker.Route.Accepts.{goes_on, codes_accepted}

codes_accepted_example :
    let buf = after_treatment_buf lay Mode.conservative (pos 1) (55 ∷ []) in
    let file = treatment_code lay (pos 1) true (55 ∷ []) in
    let inode = after_treatment_inode lay (pos 1) false (55 ∷ []) in
    let log = (after_treatment_log lay (pos 1) (55 ∷ [])).0 in
    let lock = after_treatment_tickslock lay (pos 1) (55 ∷ []) in
    (goes_on (route_buf buf) buf ≡ true)
    × (goes_on (route_file file) file ≡ true)
    × (goes_on (route_inode inode) inode ≡ true)
    × (goes_on (route_log log) log ≡ true)
    × (goes_on (route_locks 7 lock) lock ≡ true)
codes_accepted_example = codes_accepted lay (pos 1) Mode.conservative true false 7 (55 ∷ [])

abbrev free : RecoveryLock
free = record { num = pos 1; exception = 0; holder = none }

abbrev nobody : List ℕ
nobody = 0 ∷ 0 ∷ 0 ∷ 0 ∷ 0 ∷ []

-- Process 3 is in a section of the log; cpu 0 recovers the console.
abbrev in_log : State
in_log = record {
  recovery_locks = set (replicate 11 free) 2 (record free { holder = some 0 });
  rcs_infos = record { pid = 3; history_idx = 6 ∷ 6 ∷ 6 ∷ 6 ∷ 6 ∷ [] } ∷ [];
  indexes = record { buf_idx = []; file_idx = []; inode_idx = [] };
}

abbrev left : State
left = record in_log {
  recovery_locks = set (replicate 11 free) 6 (record free { num = negsuc 3 });
  rcs_infos = record { pid = 3; history_idx = nobody } ∷ [];
}

abbrev caller : Caller
caller = record { cpu = 0; noff = pos 0; pid = some 3 }

cons_run : after_treatment_cons lay (pos 1) caller 3 (55 ∷ []) in_log ≡ ok (Code.syscall_redo, left)
unfolding after_treatment_cons treat_cons identify_nmi_occurred_trap inside history put_history pred
    release_recovery_lock exit_rcs_after_recovery is_enabled exit_recovery_critical_section_all
cons_run = refl

abbrev left_held : State
left_held = record left {
  recovery_locks = set left.recovery_locks 2 (record free { holder = some 0 });
}

pr_run :
    after_treatment_pr lay true caller 3 (55 ∷ []) in_log ≡ ok (Code.process_kill, true, left_held)
unfolding after_treatment_pr treat_pr identify_nmi_occurred_trap inside history put_history pred
    exit_rcs_after_recovery exit_recovery_critical_section_all
pr_run = refl
