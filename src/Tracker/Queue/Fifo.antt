-- ===== src/Tracker/Queue/Fifo.antt =====
-- The NMI queue is a first-in first-out queue as long as it is not full.
use ev.Prelude.{
  ℕ, suc, ◌≡◌, ◌≢◌, refl, List, [], ◌∷◌, ◌++◌, none, some, ◌==◌, if◌then◌else◌, replicate, ok,
  panic, All, arith,
}
use ev.Tracker.Queue.{
  NmiInfo, no_nmi, enqueue_from, enqueue, ret_and_search_nmiqueue, last_addr, shift,
}

abbrev pub IsPending : NmiInfo → Type 0
IsPending q = q.addr ≢ 0

-- The errors that wait, oldest first, and the empty places behind them.
abbrev pub queue : List NmiInfo → ℕ → List NmiInfo
queue xs k = xs ++ replicate k no_nmi

shift-queue :
    (x : NmiInfo) (xs : List NmiInfo) (k : ℕ)
    → All IsPending xs
    → shift (queue (x ∷ xs) (suc k)) ≡ queue xs (suc (suc k))
unfolding shift
shift-queue x [] k a = refl
shift-queue x (y ∷ xs) k a = ground (arith, shift-queue y xs k a.1)

abbrev pub next_addr : List NmiInfo → ℕ
next_addr [] = 0
next_addr (x ∷ xs) = x.addr

-- While a place is empty, taking the first error moves every other one up and leaves one more place
-- empty; the address returned is that of the next error, or 0 when none is left.
pub ret_and_search_nmiqueue-queue :
    (x : NmiInfo) (xs : List NmiInfo) (k : ℕ)
    → All IsPending xs
    → ret_and_search_nmiqueue (queue (x ∷ xs) (suc k)) ≡ (queue xs (suc (suc k)), next_addr xs)
unfolding ret_and_search_nmiqueue
ret_and_search_nmiqueue-queue x [] k a = rw (shift-queue x [] k a) refl
ret_and_search_nmiqueue-queue x (y ∷ xs) k a = rw (shift-queue x (y ∷ xs) k a) refl

-- A full queue keeps its last error twice: the last place is never emptied.
pub shift_full :
    (x z : NmiInfo) (xs : List NmiInfo)
    → All IsPending xs
    → IsPending z
    → shift (x ∷ xs ++ z ∷ []) ≡ xs ++ z ∷ z ∷ []
unfolding shift
shift_full x z [] a p = ground arith
shift_full x z (y ∷ xs) a p = ground (arith, shift_full y z xs a.1 p)

enqueue_from-queue :
    (q : NmiInfo) (xs : List NmiInfo) (k : ℕ)
    → All IsPending xs
    → enqueue_from q (queue xs (suc k)) ≡ some (queue (xs ++ q ∷ []) k)
unfolding enqueue_from
enqueue_from-queue q [] k a = refl
enqueue_from-queue q (x ∷ xs) k a = ground (arith, enqueue_from-queue q xs k a.1)

enqueue_from_full : (q : NmiInfo) (xs : List NmiInfo) → All IsPending xs → enqueue_from q xs ≡ none
unfolding enqueue_from
enqueue_from_full q [] a = refl
enqueue_from_full q (x ∷ xs) a = ground (arith, enqueue_from_full q xs a.1)

-- While a place is empty, a following process goes behind all that wait.
pub enqueue-queue :
    (q x : NmiInfo) (xs : List NmiInfo) (k : ℕ)
    → All IsPending xs
    → enqueue q (queue (x ∷ xs) (suc k)) ≡ ok (queue (x ∷ (xs ++ q ∷ [])) k)
unfolding enqueue
enqueue-queue q x xs k a = ground (arith, enqueue_from-queue q xs k a)

-- Into a full queue nobody gets: the system stops, unless the last error has the same address, and
-- then the process waits without a place of its own.
pub enqueue_full :
    (q x : NmiInfo) (xs : List NmiInfo)
    → All IsPending xs
    → enqueue q (x ∷ xs) ≡ (if last_addr (x ∷ xs) == q.addr then ok (x ∷ xs) else panic)
unfolding enqueue
enqueue_full q x xs a = rw (enqueue_from_full q xs a, enqueue)
