-- ===== src/Trans/Tests.antt =====
-- Runs of kernel/trans.c, and its theorems at concrete states.
use ev.Prelude.{ℕ, suc, zero, ◌≡◌, refl, [], ◌∷◌, some, get_elem?, ok, arith}
use ev.Prelude.Int.{pos, negsuc, succ, IsNat}
use ev.Params.{LogHeader}
use ev.Trans.{
  TransInfo, State, search_trans_info, index, info_at, enter_trans_log, enter_trans_pagetable,
  enter_trans_run, check_and_handle_trans_log,
}
use ev.Trans.Invariant.{Counted, step, step-Counted, enters_log}
use ev.Trans.Rollback.{check_and_handle_trans_log-enter}

abbrev info : ℕ → TransInfo
info p = record { pid = p; pagetable_ntrans = pos 0; log_ntrans = pos 0; run_ntrans = pos 0 }

abbrev header : LogHeader
header = record { n = 1; block = 45 ∷ [] }

abbrev torn : LogHeader
torn = record { n = 2; block = 45 ∷ 46 ∷ [] }

-- Two processes; process 2 has a log of one block and one system call under way.
abbrev two : State
two = record {
  infos = info 1 ∷ info 2 ∷ [];
  nextpid = 3;
  log_outstanding = negsuc 0;
  log_logheader = record { n = 0; block = [] };
  log_run = 0;
  lh = header;
  outstanding = pos 1;
  dup_lhdr = header;
  dup_outstanding = pos 1;
  kmem = 7;
  freelist = 4096 ∷ [];
  run_list = 4096 ∷ [];
}

abbrev entered : State
entered = record two {
  infos =
      info 1
      ∷ record { pid = 2; pagetable_ntrans = pos 0; log_ntrans = pos 1; run_ntrans = pos 0 }
      ∷ [];
  log_logheader = header;
  log_outstanding = pos 1;
}

entered_run : enter_trans_log 2 two ≡ ok entered
unfolding enter_trans_log index search_trans_info info_at succ
entered_run = refl

two-Counted : Counted two
two-Counted = ((refl, refl, refl), ((refl, refl, refl), tt))

at_two :
    (i : ℕ) (t : TransInfo)
    → get_elem? two.infos i ≡ some t
    → (IsNat t.log_ntrans) × (IsNat t.pagetable_ntrans) × IsNat t.run_ntrans
at_two zero t e = ground arith
at_two (suc zero) t e = ground arith
at_two (suc (suc i)) t e = ground arith

step-Counted_example : Counted entered
unfolding step
step-Counted_example = step-Counted enters_log 2 two entered two-Counted entered_run

-- `log_write` has added a block to the log and not yet to the replica.
check_and_handle_trans_log-enter_example :
    check_and_handle_trans_log 2 (record entered { lh = torn })
    ≡ ok (record entered { lh = header }, pos 0)
check_and_handle_trans_log-enter_example =
    check_and_handle_trans_log-enter 2 two entered (record entered { lh = torn }) (omega arith)
      (λ i t e. (at_two i t e).0) entered_run refl refl refl refl

abbrev freeing : State
freeing = record two {
  infos =
      info 1
      ∷ record { pid = 2; pagetable_ntrans = pos 0; log_ntrans = pos 0; run_ntrans = pos 1 }
      ∷ [];
  log_run = 8192;
}

freeing_run : enter_trans_run 2 8192 two ≡ ok freeing
unfolding enter_trans_run index search_trans_info info_at succ
freeing_run = refl

abbrev entered_pagetable : State
entered_pagetable = record two {
  infos =
      info 1
      ∷ record { pid = 2; pagetable_ntrans = pos 1; log_ntrans = pos 0; run_ntrans = pos 0 }
      ∷ [];
}

entered_pagetable_run : enter_trans_pagetable 2 two ≡ ok entered_pagetable
unfolding enter_trans_pagetable index search_trans_info info_at succ
entered_pagetable_run = refl
