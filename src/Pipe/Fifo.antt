-- ===== src/Pipe/Fifo.antt =====
-- kernel/pipe.c: a pipe is a queue of at most PIPESIZE bytes.
use ev.Prelude.{
  ℕ, zero, suc, ◌+◌, ◌%◌, ◌^◌, ◌<◌, ◌≤◌, ◌≡◌, ◌≢◌, refl, ap, ◌⊎◌, inl, inr, Bool, true, false, not,
  ◌&&◌, ◌||◌, List, [], ◌∷◌, ◌++◌, Option, none, some, ◌==◌, if◌then◌else◌, get_or, set, length,
  length-set, length-append, replicate, arith, Bool-cases, ◌∙◌,
}
use ev.Prelude.Int.{pos, negsuc}
use ev.Pipe.{
  Pipe, Progress, returns, sleeps, pipesize, is_full, push, pipewrite, read_from, piperead,
}

-- `k` bytes of the ring from the counter `r` on.
unfoldable pub slice : List ℕ → ℕ → ℕ → List ℕ
slice d r zero = []
slice d r (suc k) = get_or d (r % pipesize) 0 ∷ slice d (r + 1) k

-- The pipe holds the bytes, the oldest first; `r` bytes have been read since it was made.
abbrev pub IsQueue : Pipe → List ℕ → Type 0
IsQueue p xs =
    (r : ℕ) × (p.nread ≡ r % 2 ^ 32)
    × (p.nwrite ≡ (r + length xs) % 2 ^ 32)
    × (length p.bytes ≡ pipesize)
    × (length xs ≤ pipesize)
    × (slice p.bytes r (length xs) ≡ xs)

get_or-set_self : (xs : List ℕ) (i v : ℕ) → i < length xs → get_or (set xs i v) i 0 ≡ v
get_or-set_self [] i v h = absurd (omega arith)
get_or-set_self (x ∷ xs) zero v h = refl
get_or-set_self (x ∷ xs) (suc i) v h = get_or-set_self xs i v (omega arith)

get_or-set_ne : (xs : List ℕ) (i j v : ℕ) → i ≢ j → get_or (set xs i v) j 0 ≡ get_or xs j 0
get_or-set_ne [] i j v h = refl
get_or-set_ne (x ∷ xs) zero zero v h = absurd (h refl)
get_or-set_ne (x ∷ xs) zero (suc j) v h = refl
get_or-set_ne (x ∷ xs) (suc i) zero v h = refl
get_or-set_ne (x ∷ xs) (suc i) (suc j) v h = get_or-set_ne xs i j v (λ e. h (ap suc e))

-- A byte behind `k < PIPESIZE` others overwrites none of them.
slice-set :
    (d : List ℕ) (i r k ch : ℕ)
    → i ≡ (r + k) % pipesize
    → length d ≡ pipesize
    → k < pipesize
    → slice (set d i ch) r (suc k) ≡ slice d r k ++ ch ∷ []
unfolding slice
slice-set d i r zero ch e len lt =
    let e' : r % pipesize ≡ i = omega arith in
    ap (λ x. x ∷ []) (rw e' (get_or-set_self d i ch (omega arith)))
slice-set d i r (suc k) ch e len lt =
    let ne : i ≢ r % pipesize = omega arith in
    let tail = slice-set d i (r + 1) k ch (omega arith) len (omega arith) in
    rw (get_or-set_ne d i (r % pipesize) ch ne) (ap (λ x. get_or d (r % pipesize) 0 ∷ x) tail)

is_full_lem : (p : Pipe) (xs : List ℕ) → IsQueue p xs → is_full p ≡ (length xs == pipesize)
unfolding is_full
is_full_lem p xs (r, e, f, len, fits, s) = elim (Bool-cases (length xs == pipesize)) [
  | inl q ↦ rw q ground arith
  | inr q ↦ rw q ground arith
]

push-IsQueue :
    (p : Pipe) (xs : List ℕ) (ch : ℕ)
    → IsQueue p xs
    → length xs < pipesize
    → IsQueue (push ch p) (xs ++ ch ∷ [])
unfolding push
push-IsQueue p xs ch (r, e, f, len, fits, s) lt =
    let n : length (xs ++ ch ∷ []) ≡ suc (length xs) = ground (arith, length-append xs (ch ∷ [])) in
    let i : ((r + length xs) % 2 ^ 32) % pipesize ≡ (r + length xs) % pipesize = omega arith in
    (
      r,
      e,
      omega arith,
      ground (arith, length-set p.bytes (p.nwrite % pipesize) ch),
      omega arith,
      rw (n, f, i)
          (slice-set p.bytes ((r + length xs) % pipesize) r (length xs) ch refl len lt
            ∙ ap (λ x. x ++ ch ∷ []) s),
    )

append-nil : (xs : List ℕ) → xs ++ [] ≡ xs
append-nil [] = refl
append-nil (x ∷ xs) = ap (λ r. x ∷ r) (append-nil xs)

append_assoc : (xs : List ℕ) (c : ℕ) (ys : List ℕ) → (xs ++ c ∷ []) ++ ys ≡ xs ++ c ∷ ys
append_assoc [] c ys = refl
append_assoc (x ∷ xs) c ys = ap (λ r. x ∷ r) (append_assoc xs c ys)

abbrev pub sent : List ℕ → List (Option ℕ)
sent [] = []
sent (x ∷ xs) = some x ∷ sent xs

-- How a writer ends that has the rest still to write and a pipe with the bytes.
abbrev pub Ends : Bool → Bool → ℕ → List ℕ → List (Option ℕ) → Progress (List (Option ℕ)) → Type 0
Ends killed readopen n xs [] e = e ≡ returns (pos n)
Ends killed readopen n xs (c ∷ cs) e =
    ((length xs ≡ pipesize)
      × (e ≡ (if not readopen || killed then returns (negsuc 0) else sleeps (c ∷ cs))))
    ⊎ ((c ≡ none) × (e ≡ returns (pos n)))

-- A writer puts a first part of its bytes behind those that wait in the pipe, and loses or overwrites
-- none. It ends when all are written or the next cannot be copied in, with the length that it was
-- called with, or at a full pipe, with -1 if no reader is left or it is killed, and asleep otherwise,
-- with the other bytes still to write.
pub pipewrite-IsQueue :
    (killed : Bool) (n : ℕ) (cs : List (Option ℕ)) (p : Pipe) (xs : List ℕ)
    → IsQueue p xs
    → let (q, e) = pipewrite killed n cs p in
      (ys : List ℕ) × (rest : List (Option ℕ)) × (cs ≡ sent ys ++ rest)
      × IsQueue q (xs ++ ys)
      × Ends killed p.readopen n (xs ++ ys) rest e
unfolding pipewrite push
pipewrite-IsQueue killed n [] p xs h = ([], [], refl, rw (append-nil xs) h, refl)
pipewrite-IsQueue killed n (none ∷ cs) p xs h = elim (Bool-cases (is_full p)) [
  | inl full ↦ rw full (
    [],
    none ∷ cs,
    refl,
    rw (append-nil xs) h,
    inl (ground (arith, is_full_lem p xs h, append-nil xs), refl),
  )
  | inr free ↦ rw free ([], none ∷ cs, refl, rw (append-nil xs) h, inr (refl, refl))
]
pipewrite-IsQueue killed n (some ch ∷ cs) p xs h = elim (Bool-cases (is_full p)) [
  | inl full ↦ rw full (
    [],
    some ch ∷ cs,
    refl,
    rw (append-nil xs) h,
    inl (ground (arith, is_full_lem p xs h, append-nil xs), refl),
  )
  | inr free ↦
      let (r, e, f, len, fits, s) = h in
      let lt : length xs < pipesize = ground (arith, is_full_lem p xs h) in
      let (ys, rest, split, held, ends) =
        pipewrite-IsQueue killed n cs (push ch p) (xs ++ ch ∷ []) (push-IsQueue p xs ch h lt) in
      rw free (
        ch ∷ ys,
        rest,
        ap (λ x. some ch ∷ x) split,
        rw (append_assoc xs ch ys) at held,
        rw (append_assoc xs ch ys) at ends,
      )
]

pop-IsQueue :
    (p : Pipe) (x : ℕ) (xs : List ℕ)
    → IsQueue p (x ∷ xs)
    → (get_or p.bytes (p.nread % pipesize) 0 ≡ x)
      × IsQueue (record p { nread = (p.nread + 1) % 2 ^ 32 }) xs
      × ((p.nread == p.nwrite) ≡ false)
unfolding slice
pop-IsQueue p x xs (r, e, f, len, fits, s) =
    let i : p.nread % pipesize ≡ r % pipesize = omega arith in
    (ground arith, (r + 1, omega arith, omega arith, len, omega arith, ground arith), ground arith)

empty-IsQueue : (p : Pipe) → IsQueue p [] → (p.nread == p.nwrite) ≡ true
empty-IsQueue p (r, e, f, len, fits, s) = ground arith

read_from-IsQueue :
    (n : ℕ) (p : Pipe) (xs : List ℕ)
    → IsQueue p xs
    → let (q, got) = read_from (replicate n true) p in
      (zs : List ℕ) × (xs ≡ got ++ zs) × IsQueue q zs × ((zs ≡ []) ⊎ (length got ≡ n))
unfolding read_from
read_from-IsQueue zero p xs h = (xs, refl, h, inr refl)
read_from-IsQueue (suc n) p [] h = rw (empty-IsQueue p h) ([], refl, h, inl refl)
read_from-IsQueue (suc n) p (x ∷ xs) h =
    let (first, after, more) = pop-IsQueue p x xs h in
    let (zs, split, held, size) =
      read_from-IsQueue n (record p { nread = (p.nread + 1) % 2 ^ 32 }) xs after in
    rw (more, first) (zs, ap (λ r. x ∷ r) split, held, ground arith)

abbrev pub is_nil : List ℕ → Bool
is_nil [] = true
is_nil (x ∷ xs) = false

-- A reader whose copies all go well takes the oldest bytes of the pipe, in their order, as many as it
-- asked for or all that there are, leaves the others, and returns their number; but from an empty
-- pipe that a writer still has open it takes nothing, and returns -1 if it is killed, or sleeps.
pub piperead-IsQueue :
    (killed : Bool) (n : ℕ) (p : Pipe) (xs : List ℕ)
    → IsQueue p xs
    → let (q, e, got) = piperead killed (replicate n true) p in
      (zs : List ℕ) × (xs ≡ got ++ zs)
      × IsQueue q zs
      × (if is_nil xs && p.writeopen
          then (got ≡ []) × (e ≡ (if killed then returns (negsuc 0) else sleeps (replicate n true)))
          else ((zs ≡ []) ⊎ (length got ≡ n)) × (e ≡ returns (pos (length got))))
unfolding piperead
piperead-IsQueue killed n p [] h = elim (Bool-cases p.writeopen) [
  | inl open_ ↦ simp (empty-IsQueue p h, open_) ([], refl, h, (refl, refl))
  | inr closed ↦
      let (zs, split, held, size) = read_from-IsQueue n p [] h in
      simp (empty-IsQueue p h, closed) (zs, split, held, (size, refl))
]
piperead-IsQueue killed n p (x ∷ xs) h =
    let (zs, split, held, size) = read_from-IsQueue n p (x ∷ xs) h in
    rw ((pop-IsQueue p x xs h).2) (zs, split, held, (size, refl))
