-- ===== src/UserCoop/Answers/Tests.antt =====
-- The two system calls on a table of three processes.
use ev.Prelude.{true, false, [], ◌∷◌}
use ev.UserCoop.{State}

abbrev table : State
table = record { user_coop_status = false ∷ false ∷ true ∷ []; pids = 1 ∷ 4 ∷ 9 ∷ [] }
