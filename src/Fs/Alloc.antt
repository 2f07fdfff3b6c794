-- ===== src/Fs/Alloc.antt =====
-- kernel/fs.c: what `balloc` and `bfree` change in the free map.
use ev.Prelude.{
  ℕ, ◌+◌, ◌*◌, ◌/◌, ◌%◌, ◌≡◌, ◌≢◌, ◌<◌, refl, sym, ap, ◌∙◌, ◌⊎◌, inl, inr, Bool, true, false, not,
  ◌&&◌, ◌||◌, ◌==◌, ==_refl, if◌then◌else◌, ok, arith, upd, upd_self, upd_ne, Bool-cases,
}
use ev.Fs.Bits.{is_set, set_bit, clear_bit, set_bit_lem, clear_bit_lem}
use ev.Fs.{State, bpb, bblock, bzero, change_byte, take, balloc, bfree}
use ev.Fs.Scan.{used, First, balloc_lem}

abbrev pub IsBytes : State → Type 0
IsBytes s = (b i : ℕ) → s.blocks b i < 256

-- The blocks of the free map are in use themselves.
abbrev pub IsReserved : State → Type 0
IsReserved s = (m : ℕ) → m < s.size → used (bblock m s) s ≡ true

-- A change of one byte of the free map at the block `n`.
used_changed :
    (f : ℕ → ℕ) (n m : ℕ) (s : State)
    → (n / 8192 ≡ m / 8192)
    → (n % 8192 / 8 ≡ m % 8192 / 8)
    → used m (change_byte f (bblock n s) (n % bpb / 8) s)
      ≡ is_set (m % bpb % 8) (f (s.blocks (bblock m s) (m % bpb / 8)))
unfolding used change_byte
used_changed f n m s e g =
    rw (e, g)
      (ap (is_set (m % bpb % 8)) (
        ap (λ h. h (m % 8192 / 8)) (upd_self s.blocks (m / 8192 + s.bmapstart) _)
        ∙ upd_self (s.blocks (m / 8192 + s.bmapstart)) (m % 8192 / 8) _))

used_other :
    (f : ℕ → ℕ) (n m : ℕ) (s : State)
    → (n / 8192 ≢ m / 8192) ⊎ (n % 8192 / 8 ≢ m % 8192 / 8)
    → used m (change_byte f (bblock n s) (n % bpb / 8) s) ≡ used m s
unfolding used change_byte upd
used_other f n m s ne = ground arith

-- The bit of `n` is changed by `g`, and no other.
abbrev IsBit : (ℕ → ℕ) → (Bool → Bool) → ℕ → Type 0
IsBit f g k =
    (j x : ℕ) → j < 8 → x < 256 → is_set j (f x) ≡ (if k == j then g (is_set j x) else is_set j x)

same_bit :
    (n m : ℕ)
    → n / 8192 ≡ m / 8192
    → n % 8192 / 8 ≡ m % 8192 / 8
    → (n % bpb % 8 == m % bpb % 8) ≡ (n == m)
same_bit n m e g = elim (Bool-cases (n == m)) [
  | inl h ↦ let q : n ≡ m = ground arith in rw q ground arith
  | inr h ↦
      let ne : n ≢ m = ground arith in
      let nq : n % 8192 % 8 ≢ m % 8192 % 8 = λ r. ne (omega arith) in
      rw h (differ (n % 8192 % 8) (m % 8192 % 8) nq)
]
  where
    differ : (a b : ℕ) → a ≢ b → (a == b) ≡ false
    differ a b ne = ground arith

other_place :
    (n m : ℕ)
    → (n / 8192 == m / 8192 && n % 8192 / 8 == m % 8192 / 8) ≡ false
    → ((n / 8192 ≢ m / 8192) ⊎ (n % 8192 / 8 ≢ m % 8192 / 8)) × ((n == m) ≡ false)
other_place n m e = elim (Bool-cases (n / 8192 == m / 8192)) [
  | inr f ↦
      (inl (ground arith), differ n m (λ q. apart (n / 8192) (m / 8192) f (ap (λ k. k / 8192) q)))
  | inl f ↦ elim (Bool-cases (n % 8192 / 8 == m % 8192 / 8)) [
    | inl g ↦ absurd (ground arith)
    | inr g ↦ (
      inr (ground arith),
      differ n m (λ q. apart (n % 8192 / 8) (m % 8192 / 8) g (ap (λ k. k % 8192 / 8) q)),
    )
  ]
]
  where
    differ : (a b : ℕ) → a ≢ b → (a == b) ≡ false
    differ a b ne = ground arith

    apart : (a b : ℕ) → (a == b) ≡ false → a ≢ b
    apart a b h = ground arith

used-change_byte :
    (f : ℕ → ℕ) (g : Bool → Bool) (n m : ℕ) (s : State)
    → IsBytes s
    → IsBit f g (n % bpb % 8)
    → used m (change_byte f (bblock n s) (n % bpb / 8) s)
      ≡ (if n == m then g (used m s) else used m s)
unfolding used
used-change_byte f g n m s w b =
    elim (Bool-cases (n / 8192 == m / 8192 && n % 8192 / 8 == m % 8192 / 8)) [
      | inr e ↦ let (o, d) = other_place n m e in rw d (used_other f n m s o)
      | inl e ↦
          let x : n / 8192 ≡ m / 8192 = ground arith in
          let y : n % 8192 / 8 ≡ m % 8192 / 8 = ground arith in
          used_changed f n m s x y
          ∙ b (m % bpb % 8) (s.blocks (bblock m s) (m % bpb / 8)) (omega arith)
              (w (bblock m s) (m % bpb / 8))
          ∙ ap (λ c. if c then g (used m s) else used m s) (same_bit n m x y)
    ]

clear_bit-IsBit : (k : ℕ) → k < 8 → IsBit (clear_bit k) (λ b. false) k
clear_bit-IsBit k hk j x hj hx = (clear_bit_lem k j x hk hj hx).0 ∙ choose (k == j) (is_set j x)
  where
    choose : (a b : Bool) → (not a && b) ≡ (if a then false else b)
    choose true b = refl
    choose false b = refl

set_bit-IsBit : (k : ℕ) → k < 8 → IsBit (set_bit k) (λ b. true) k
set_bit-IsBit k hk j x hj hx = (set_bit_lem k j x hk hj hx).0 ∙ choose (k == j) (is_set j x)
  where
    choose : (a b : Bool) → (a || b) ≡ (if a then true else b)
    choose true b = refl
    choose false b = refl

bfree-ok :
    (n : ℕ) (s t : State)
    → bfree n s ≡ ok t
    → (used n s ≡ true) × (change_byte (clear_bit (n % bpb % 8)) (bblock n s) (n % bpb / 8) s ≡ t)
unfolding bfree used
bfree-ok n s t h = elim (Bool-cases (is_set (n % bpb % 8) (s.blocks (bblock n s) (n % bpb / 8)))) [
  | inl e ↦ (e, ground arith)
  | inr e ↦ absurd (ground arith)
]

-- `bfree` only returns for a block that is in use. It frees that block and no other.
pub used-bfree :
    (n m : ℕ) (s t : State)
    → IsBytes s
    → bfree n s ≡ ok t
    → (used n s ≡ true) × (used m t ≡ (if n == m then false else used m s))
used-bfree n m s t w h =
    let (u, e) = bfree-ok n s t h in
    (
      u,
      rw (← e) (
          used-change_byte (clear_bit (n % bpb % 8)) (λ b. false) n m s w
            (clear_bit-IsBit (n % bpb % 8) (omega arith))),
    )

abbrev marked : ℕ → State → State
marked n s = change_byte (set_bit (n % bpb % 8)) (bblock n s) (n % bpb / 8) s

take_eq : (n : ℕ) (s : State) → take (n / bpb * bpb) (n % bpb) s ≡ bzero n (marked n s)
unfolding take
take_eq n s =
    let e : n / 8192 * 8192 / 8192 ≡ n / 8192 = omega arith in
    let f : n / 8192 * 8192 + n % 8192 ≡ n = omega arith in rw (e, f) refl

used-bzero : (n m : ℕ) (s : State) → bblock m s ≢ n → used m (bzero n s) ≡ used m s
unfolding used bzero
used-bzero n m s ne =
    ap (λ h. is_set (m % bpb % 8) (h (m % bpb / 8))) (upd_ne s.blocks n (λ i. 0) (bblock m s) ne)

-- What a return of `balloc` means.
balloc-ok : (n : ℕ) (s t : State) → balloc s ≡ ok (n, t) → First s n × (bzero n (marked n s) ≡ t)
balloc-ok n s t h = elim (balloc_lem s) [
  | inl (e, full) ↦ absurd (ground arith)
  | inr (k, e, w) ↦
      let q : k ≡ n = ground arith in
      let r : take (k / bpb * bpb) (k % bpb) s ≡ t = ground arith in
      (rw (← q) w, sym (take_eq n s) ∙ rw q at r)
]

clash : (b : Bool) → b ≡ false → b ≢ true
clash b e f = ground arith

kept : (m n : ℕ) (s : State) → bblock m s ≢ n → bblock m (marked n s) ≢ n
unfolding change_byte
kept m n s ne = ne

-- `balloc` gives the first block that is free. It is in use after that, and for no other block of the
-- disk the free map changes: the blocks of the map, which are in use, are not the one that is cleared.
pub used-balloc :
    (n m : ℕ) (s t : State)
    → IsBytes s
    → IsReserved s
    → m < s.size
    → balloc s ≡ ok (n, t)
    → First s n × (used m t ≡ (if n == m then true else used m s))
used-balloc n m s t w r lt h =
    let (f, e) = balloc-ok n s t h in
    let apart : bblock m s ≢ n = λ q. clash (used n s) f.1 (rw q at (r m lt)) in
    (
      f,
      rw (← e) (
          used-bzero n m (marked n s) (kept m n s apart)
          ∙ used-change_byte (set_bit (n % bpb % 8)) (λ b. true) n m s w
              (set_bit-IsBit (n % bpb % 8) (omega arith))),
    )

marked-IsBytes : (n : ℕ) (s : State) → IsBytes s → IsBytes (bzero n (marked n s))
unfolding bzero change_byte upd
marked-IsBytes n s w b i =
    let (x, lt) =
      set_bit_lem (n % bpb % 8) 0 (s.blocks (bblock n s) (n % bpb / 8)) (omega arith) (omega arith)
        (w (bblock n s) (n % bpb / 8)) in
    ground (arith, w b i)

bfree-total : (n : ℕ) (s : State) → used n s ≡ true → (t : State) × (bfree n s ≡ ok t)
unfolding bfree used
bfree-total n s e =
    (change_byte (clear_bit (n % bpb % 8)) (bblock n s) (n % bpb / 8) s, rw (e, bfree) refl)

back :
    (b c : Bool) (n m : ℕ) (s : State)
    → used n s ≡ false
    → b ≡ (n == m)
    → c ≡ used m s
    → (if b then false else if b then true else c) ≡ used m s
back true c n m s f e g = let q : n ≡ m = ground arith in sym (rw q at f)
back false c n m s f e g = g

-- Freeing the block that `balloc` gave succeeds and brings the free map back.
pub bfree-balloc :
    (n m : ℕ) (s t : State)
    → IsBytes s
    → IsReserved s
    → m < s.size
    → balloc s ≡ ok (n, t)
    → (u : State) × (bfree n t ≡ ok u) × (used m u ≡ used m s)
bfree-balloc n m s t w r lt h =
    let ((ls, free, first), self) = used-balloc n n s t w r (balloc-ok n s t h).0.0 h in
    let (f, other) = used-balloc n m s t w r lt h in
    let (f0, e) = balloc-ok n s t h in
    let wt : IsBytes t = rw (← e) (marked-IsBytes n s w) in
    let now : used n t ≡ true = rw (==_refl n) at self in
    let (u, g) = bfree-total n t now in
    (u, g, (used-bfree n m t u wt g).1 ∙ rw other (back (n == m) (used m s) n m s free refl refl))
