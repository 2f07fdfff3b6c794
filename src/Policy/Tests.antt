-- ===== src/Policy/Tests.antt =====
-- The theorems on the After-Treatments at one layout of the kernel and concrete call stacks.
use ev.Prelude.Int.{pos}
use ev.Policy.{Code, scan, truthy}
use ev.Policy.Memory.{after_treatment_mm, is_fatal_mm, treat_mm}
use ev.Prelude.{refl, true, ℕ, ◌+◌, ◌≡◌, ◌&&◌, ◌||◌, List, [], ◌∷◌, arith}
use ev.Policy.{exit, sys_chdir, end_op, writei, sys_close}
use ev.Policy.{Mode, Fn, Layout, Range, inside, any_of, is_conservative, Apart}
use ev.Policy.Buf.{check_fail_stop_cases, check_fail_stop_cases_iff, is_fatal, is_unsafe}
use ev.Policy.Inode.{Inode}

-- exit at 10, sys_chdir at 20, end_op at 30, writei at 40 and sys_close at 50, nothing else.
abbrev pub at : ℕ → Range
at n = record { start = n; end = n + 9 }

abbrev pub nowhere : Range
nowhere = record { start = 1; end = 0 }

abbrev pub lay : Layout
lay f = elim f [
  | exit ↦ at 10
  | sys_chdir ↦ at 20
  | end_op ↦ at 30
  | writei ↦ at 40
  | sys_close ↦ at 50
  | _ ↦ nowhere
]

chdir-Apart : Apart lay Fn.sys_chdir Fn.end_op
unfolding inside
chdir-Apart pc h = ground arith

close-Apart : Apart lay Fn.sys_close Fn.exit
unfolding inside
close-Apart pc h = ground arith

check_fail_stop_cases_iff_example : check_fail_stop_cases lay Mode.aggressive (35 ∷ 22 ∷ []) ≡ (
    any_of (is_fatal lay) (35 ∷ 22 ∷ [])
    || (is_conservative Mode.aggressive && any_of (is_unsafe lay) (35 ∷ 22 ∷ []))
    || (any_of (inside lay Fn.sys_chdir) (35 ∷ 22 ∷ [])
        && any_of (inside lay Fn.end_op) (35 ∷ 22 ∷ [])))
check_fail_stop_cases_iff_example =
    check_fail_stop_cases_iff lay Mode.aggressive (35 ∷ 22 ∷ []) chdir-Apart

-- The root directory and the console, whose inodes are gone or not.
abbrev cache : List Inode
cache = record { addr = 300; type = 1; inum = 1 } ∷ record { addr = 400; type = 3; inum = 7 } ∷ []

-- `sys_close` below `exit` does not save the process.
closing_exit :
    after_treatment_mm lay Mode.conservative (pos 1) true (52 ∷ 12 ∷ []) ≡ Code.process_kill
unfolding after_treatment_mm scan treat_mm is_fatal_mm inside is_conservative truthy
closing_exit = refl
