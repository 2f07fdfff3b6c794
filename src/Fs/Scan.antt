-- ===== src/Fs/Scan.antt =====
-- kernel/fs.c: the block that the loops of `balloc` find.
use ev.Prelude.{
  ℕ, zero, suc, ◌+◌, ◌-◌, ◌*◌, ◌/◌, ◌%◌, ◌≡◌, ◌≤◌, ◌<◌, refl, ◌∙◌, ◌⊎◌, inl, inr, Bool, true, false,
  Option, none, some, ◌==◌, ltb, Result, ok, panic, arith, Bool-cases, Option-cases,
}
use ev.Fs.Bits.{is_set}
use ev.Fs.{State, bpb, bblock, scan, take, balloc_from, balloc}

-- The bit of a block in the free map.
unfoldable pub used : ℕ → State → Bool
used b s = is_set (b % bpb % 8) (s.blocks (bblock b s) (b % bpb / 8))

abbrev pub Scanned : (b bi size : ℕ) → (ℕ → ℕ) → Option ℕ → Type 0
Scanned b bi size bytes none =
    (y : ℕ) → bi ≤ y → y < bpb → b + y < size → is_set (y % 8) (bytes (y / 8)) ≡ true
Scanned b bi size bytes (some x) =
    (bi ≤ x)
    × (x < bpb)
    × (b + x < size)
    × (is_set (x % 8) (bytes (x / 8)) ≡ false)
    × ((y : ℕ) → bi ≤ y → y < x → is_set (y % 8) (bytes (y / 8)) ≡ true)

later :
    (b bi size : ℕ) (bytes : ℕ → ℕ) (o : Option ℕ)
    → is_set (bi % 8) (bytes (bi / 8)) ≡ true
    → Scanned b (suc bi) size bytes o
    → Scanned b bi size bytes o
later b bi size bytes none e w = λ y le lt ls. elim (Bool-cases (y == bi)) [
  | inl q ↦ let p : y ≡ bi = ground arith in rw p e
  | inr q ↦ w y (ground arith) lt ls
]
later b bi size bytes (some x) e (p, q, r, f, w) = (
  omega arith,
  q,
  r,
  f,
  λ y le lt. elim (Bool-cases (y == bi)) [
    | inl t ↦ let u : y ≡ bi = ground arith in rw u e
    | inr t ↦ w y (ground arith) lt
  ],
)

scan_lem :
    (k b bi size : ℕ) (bytes : ℕ → ℕ)
    → bi + k ≡ bpb
    → Scanned b bi size bytes (scan k b bi size bytes)
unfolding scan
scan_lem zero b bi size bytes e = λ y le lt ls. absurd (omega arith)
scan_lem (suc k) b bi size bytes e = elim (Bool-cases (ltb (b + bi) size)) [
  | inr f ↦ rw (f, scan) (λ y le lt ls. absurd (ground arith))
  | inl f ↦ elim (Bool-cases (is_set (bi % 8) (bytes (bi / 8)))) [
    | inr g ↦
        rw (f, g, scan) (omega arith, omega arith, ground arith, g, λ y le lt. absurd (omega arith))
    | inl g ↦
        rw (f, g, scan)
          (later b bi size bytes (scan k b (suc bi) size bytes) g
            (scan_lem k b (suc bi) size bytes (omega arith)))
  ]
]

abbrev pub First : State → ℕ → Type 0
First s n = (n < s.size) × (used n s ≡ false) × ((m : ℕ) → m < n → used m s ≡ true)

abbrev pub Full : State → Type 0
Full s = (m : ℕ) → m < s.size → used m s ≡ true

-- The blocks of one block of the free map.
used_at :
    (q y : ℕ) (s : State)
    → y < bpb
    → used (q * bpb + y) s ≡ is_set (y % 8) (s.blocks (bblock (q * bpb) s) (y / 8))
unfolding used
used_at q y s lt =
    let e : (q * 8192 + y) % 8192 ≡ y = omega arith in
    let f : (q * 8192 + y) / 8192 ≡ q = omega arith in
    let g : q * 8192 / 8192 ≡ q = omega arith in rw (e, f, g) refl

used_below :
    (q x : ℕ) (s : State)
    → x ≤ bpb
    → q * bpb + x < s.size
    → ((m : ℕ) → m < q * bpb → m < s.size → used m s ≡ true)
    → ((y : ℕ) → 0 ≤ y → y < x → is_set (y % 8) (s.blocks (bblock (q * bpb) s) (y / 8)) ≡ true)
    → (m : ℕ) → m < q * bpb + x
    → used m s ≡ true
used_below q x s le ls w v m lt = elim (Bool-cases (ltb m (q * bpb))) [
  | inl e ↦ w m (ground arith) (omega arith)
  | inr e ↦
      let y = m - q * 8192 in
      let f : m ≡ q * bpb + y = ground arith in
      rw f (used_at q y s (ground arith) ∙ v y (omega arith) (ground arith))
]

abbrev pub Balloced : State → Result (ℕ × State) → Type 0
Balloced s r =
    ((r ≡ panic) × Full s) ⊎ ((n : ℕ) × (r ≡ ok (n, take (n / bpb * bpb) (n % bpb) s)) × First s n)

-- One block of the free map.
round :
    (q : ℕ) (s : State) (o : Option ℕ)
    → scan bpb (q * bpb) 0 s.size (s.blocks (bblock (q * bpb) s)) ≡ o
    → Scanned (q * bpb) 0 s.size (s.blocks (bblock (q * bpb) s)) o
round q s o e = rw e at (scan_lem bpb (q * bpb) 0 s.size (s.blocks (bblock (q * bpb) s)) refl)

found_First :
    (q x : ℕ) (s : State)
    → ((m : ℕ) → m < q * bpb → m < s.size → used m s ≡ true)
    → Scanned (q * bpb) 0 s.size (s.blocks (bblock (q * bpb) s)) (some x)
    → First s (q * bpb + x)
found_First q x s w (p, lt, ls, no_bit, v) =
    (ls, used_at q x s lt ∙ no_bit, used_below q x s (omega arith) ls w v)

all_used :
    (q : ℕ) (s : State)
    → ((m : ℕ) → m < q * bpb → m < s.size → used m s ≡ true)
    → Scanned (q * bpb) 0 s.size (s.blocks (bblock (q * bpb) s)) none
    → (m : ℕ) → m < s.size
    → m < q * bpb + bpb
    → used m s ≡ true
all_used q s w v m ls lt = elim (Bool-cases (ltb m (q * bpb))) [
  | inl e ↦ w m (ground arith) ls
  | inr e ↦
      let y = m - q * 8192 in
      let f : m ≡ q * bpb + y = ground arith in
      rw f (used_at q y s (ground arith) ∙ v y (omega arith) (ground arith) (rw f at ls))
]

lt_of : (a b : ℕ) → ltb a b ≡ true → a < b
lt_of a b h = ground arith

taken :
    (q x : ℕ) (s : State)
    → x < bpb
    → ◌≡◌ {A = Result (ℕ × State)}
        (ok (q * bpb + x, take (q * bpb) x s))
        (ok (q * bpb + x, take ((q * bpb + x) / bpb * bpb) ((q * bpb + x) % bpb) s))
taken q x s lt =
    let e : (q * 8192 + x) % 8192 ≡ x = omega arith in
    let f : (q * 8192 + x) / 8192 * 8192 ≡ q * 8192 = omega arith in rw (e, f) refl

balloc_from_lem :
    (k q : ℕ) (s : State)
    → s.size + bpb ≤ (q + k) * bpb
    → q * bpb < s.size + bpb
    → ((m : ℕ) → m < q * bpb → m < s.size → used m s ≡ true)
    → Balloced s (balloc_from k (q * bpb) s)
unfolding balloc_from
balloc_from_lem zero q s enough near w = absurd (omega arith)
balloc_from_lem (suc k) q s enough near w = elim (Bool-cases (ltb (q * bpb) s.size)) [
  | inr f ↦ rw (f, balloc_from) (inl (refl, λ m lt. w m (ground arith) lt))
  | inl f ↦ elim (Option-cases (scan bpb (q * bpb) 0 s.size (s.blocks (bblock (q * bpb) s)))) [
    | inr (x, e) ↦
        let v = round q s (some x) e in
        let lt : x < bpb = v.1 in
        rw (f, e, balloc_from) (inr (q * bpb + x, taken q x s lt, found_First q x s w v))
    | inl e ↦
        let v = round q s none e in
        let less : q * bpb < s.size = lt_of (q * bpb) s.size f in
        let next : suc q * bpb ≡ q * bpb + bpb = omega arith in
        rw (f, e, balloc_from)
          (rw next at (
            balloc_from_lem k (suc q) s (omega arith) (omega arith)
              (λ m lt ls. all_used q s w v m ls (omega arith))))
  ]
]

-- Without the panics of the buffers and the log, `balloc` always ends. It gives the first block that is free, and changes what `take` changes for
-- it; or all blocks are in use, and it panics with `out of blocks`.
pub balloc_lem : (s : State) → Balloced s (balloc s)
unfolding balloc
balloc_lem s =
    balloc_from_lem (s.size / bpb + 2) 0 s (omega arith) (omega arith)
      (λ m lt ls. absurd (omega arith))
