-- ===== src/Policy/Trap.antt =====
-- kernel/kerneltrapret.c: where the trap that met the memory error came from.
use ev.Prelude.{ℕ, Bool, true, false, ◌&&◌, ◌||◌, List, [], ◌∷◌, if◌then◌else◌}
use ev.Policy.{Layout, Fn, inside}

pub data Trap : Type 0 where
  usertrap kerneltrap neither : Trap

-- The loop; the flag says that `kernelvec` or `nmivec` has been passed.
unfoldable pub trap_from : Layout → Bool → List ℕ → Trap
trap_from l is_kernelvec [] = neither
trap_from l is_kernelvec (pc ∷ pcs) =
    let above = trap_from l true pcs in
    let same = trap_from l is_kernelvec pcs in
    if inside l Fn.kernelvec pc || inside l Fn.nmivec pc
    then above
    else if is_kernelvec && inside l Fn.usertrap pc
    then usertrap
    else if is_kernelvec && inside l Fn.kerneltrap pc
    then kerneltrap
    else same

unfoldable pub identify_nmi_occurred_trap : Layout → List ℕ → Trap
unfolding trap_from
identify_nmi_occurred_trap l pcs = trap_from l false pcs
