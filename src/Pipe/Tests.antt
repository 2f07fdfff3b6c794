-- ===== src/Pipe/Tests.antt =====
-- kernel/pipe.c: a pipe whose counters are about to wrap around.
use ev.Prelude.{
  ℕ, zero, suc, ◌≡◌, ◌⊎◌, refl, true, false, List, [], ◌∷◌, ◌++◌, Option, none, some, set, length,
  replicate, arith,
}
use ev.Prelude.Int.{pos}
use ev.Pipe.{Pipe, returns, pipesize, pipewrite, piperead}
use ev.Pipe.Fifo.{slice, IsQueue, sent, Ends, pipewrite-IsQueue, piperead-IsQueue}

zeros_length : (n : ℕ) → length {A = ℕ} (replicate n 0) ≡ n
zeros_length zero = refl
zeros_length (suc n) = omega (arith, zeros_length n)

-- All but one of 2^32 bytes have been read, and none waits.
abbrev old : Pipe
old = record {
  bytes = replicate pipesize 0;
  nread = 4294967295;
  nwrite = 4294967295;
  readopen = true;
  writeopen = true;
}

old-IsQueue : IsQueue old []
unfolding slice
old-IsQueue = (4294967295, refl, refl, zeros_length pipesize, omega arith, refl)

pipewrite-IsQueue_example :
    (ys : List ℕ) × (rest : List (Option ℕ)) × (some 7 ∷ some 8 ∷ none ∷ [] ≡ sent ys ++ rest)
    × IsQueue (pipewrite false 3 (some 7 ∷ some 8 ∷ none ∷ []) old).0 ([] ++ ys)
    × Ends false true 3 ([] ++ ys) rest (pipewrite false 3 (some 7 ∷ some 8 ∷ none ∷ []) old).1
pipewrite-IsQueue_example =
    pipewrite-IsQueue false 3 (some 7 ∷ some 8 ∷ none ∷ []) old [] old-IsQueue

-- A pipe with two bytes, one on each side of the wrap.
abbrev two : Pipe
two = record old { bytes = 8 ∷ set (replicate 511 0) 510 7; nwrite = 1 }

two-IsQueue : IsQueue two (7 ∷ 8 ∷ [])
unfolding slice
two-IsQueue = (4294967295, refl, refl, refl, omega arith, refl)

piperead-IsQueue_example :
    (zs : List ℕ) × (7 ∷ 8 ∷ [] ≡ (piperead false (true ∷ []) two).2 ++ zs)
    × IsQueue (piperead false (true ∷ []) two).0 zs
    × (((zs ≡ []) ⊎ (length (piperead false (true ∷ []) two).2 ≡ 1))
        × ((piperead false (true ∷ []) two).1
            ≡ returns (pos (length (piperead false (true ∷ []) two).2))))
piperead-IsQueue_example = piperead-IsQueue false 1 two (7 ∷ 8 ∷ []) two-IsQueue
