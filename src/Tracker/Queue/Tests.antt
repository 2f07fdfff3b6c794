-- ===== src/Tracker/Queue/Tests.antt =====
-- The theorems on the NMI queue, the recovered objects and the policies at concrete inputs.
use ev.Prelude.{ℕ, ◌+◌, ◌≡◌, [], ◌∷◌, ok, arith}
use ev.Policy.{Code}
use ev.Tracker.Queue.{NmiInfo, no_nmi, ret_and_search_nmiqueue, enqueue, RecoveredAddr}
use ev.Tracker.Queue.Fifo.{ret_and_search_nmiqueue-queue, enqueue-queue}

abbrev nmi : ℕ → NmiInfo
nmi n = record { addr = n; pid = n; sp = 0; s0 = 0 }

ret_and_search_nmiqueue-queue_example :
    ret_and_search_nmiqueue (nmi 1 ∷ nmi 2 ∷ no_nmi ∷ []) ≡ (nmi 2 ∷ no_nmi ∷ no_nmi ∷ [], 2)
ret_and_search_nmiqueue-queue_example =
    ret_and_search_nmiqueue-queue (nmi 1) (nmi 2 ∷ []) 0 (omega arith)

enqueue-queue_example :
    enqueue (nmi 3) (nmi 1 ∷ nmi 2 ∷ no_nmi ∷ no_nmi ∷ [])
    ≡ ok (nmi 1 ∷ nmi 2 ∷ nmi 3 ∷ no_nmi ∷ [])
enqueue-queue_example = enqueue-queue (nmi 3) (nmi 1) (nmi 2 ∷ []) 1 (omega arith)

abbrev spot : ℕ → RecoveredAddr
spot n = record {
  start = n;
  end = n + 16;
  terminate_flag = Code.syscall_fail;
  pid = 3;
  rcs_flag = 0;
}

abbrev no_spot : RecoveredAddr
no_spot = record { start = 0; end = 0; terminate_flag = Code.unset; pid = 0; rcs_flag = 0 }
