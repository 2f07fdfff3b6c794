-- ===== src/Fs/Bits.antt =====
-- The bits of a byte, as the free map of kernel/fs.c sets and clears them.
use ev.Prelude.{
  ℕ, zero, suc, ◌-◌, ◌^◌, ◌≡◌, ◌<◌, refl, sym, Bool, true, false, not, ◌&&◌, ◌||◌, ◌==◌, ltb,
  if◌then◌else◌, Bool-cases, inl, inr, arith,
}
use Prim.Native.Nat.{bit_and, bit_or}

-- `data[bi/8] & m`, `data[bi/8] |= m` and `data[bi/8] &= ~m` for `m = 1 << k`.
unfoldable pub is_set : ℕ → ℕ → Bool
is_set k x = not (bit_and x (2 ^ k) == 0)

unfoldable pub set_bit : ℕ → ℕ → ℕ
set_bit k x = bit_or x (2 ^ k)

unfoldable pub clear_bit : ℕ → ℕ → ℕ
clear_bit k x = bit_and x (255 - 2 ^ k)

-- A test that every number below a bound passes.
passes : (ℕ → Bool) → ℕ → Bool
passes test zero = true
passes test (suc bound) = let smaller = passes test bound in if test bound then smaller else false

passes-lt : (test : ℕ → Bool) (bound i : ℕ) → i < bound → passes test bound ≡ true → test i ≡ true
unfolding passes
passes-lt test (suc bound) i lt ok_ = elim (Bool-cases (test bound)) [
  | inr e ↦ absurd (ground arith)
  | inl e ↦ elim (Bool-cases (i == bound)) [
    | inl q ↦ let same_ : i ≡ bound = ground arith in rw same_ e
    | inr q ↦ passes-lt test bound i (ground arith) (ground arith)
  ]
]
passes-lt test zero i lt ok_ = absurd (omega arith)

abbrev same : Bool → Bool → Bool
same true b = b
same false b = not b

same_iff : (a b : Bool) → same a b ≡ true → a ≡ b
same_iff true b h = sym h
same_iff false true h = absurd (ground arith)
same_iff false false h = refl

abbrev sets : ℕ → ℕ → ℕ → Bool
sets k j x = same (is_set j (set_bit k x)) (k == j || is_set j x) && ltb (set_bit k x) 256

abbrev clears : ℕ → ℕ → ℕ → Bool
clears k j x =
    same (is_set j (clear_bit k x)) (not (k == j) && is_set j x) && ltb (clear_bit k x) 256

abbrev on_bytes : (ℕ → ℕ → ℕ → Bool) → Bool
on_bytes test = passes (λ k. passes (λ j. passes (test k j) 256) 8) 8

on_bytes_lem :
    (test : ℕ → ℕ → ℕ → Bool) (k j x : ℕ)
    → on_bytes test ≡ true
    → k < 8
    → j < 8
    → x < 256
    → test k j x ≡ true
on_bytes_lem test k j x h hk hj hx = passes-lt (test k j) 256 x hx (
    passes-lt (λ j. passes (test k j) 256) 8 j hj
      (passes-lt (λ k. passes (λ j. passes (test k j) 256) 8) 8 k hk h))

sets_table : on_bytes sets ≡ true
unfolding passes is_set set_bit
sets_table = refl

clears_table : on_bytes clears ≡ true
unfolding passes is_set clear_bit
clears_table = refl

both : (a b : Bool) → a && b ≡ true → (a ≡ true) × (b ≡ true)
both true b h = (refl, h)
both false b h = absurd (ground arith)

below : (x : ℕ) → ltb x 256 ≡ true → x < 256
below x h = ground arith

-- Setting one bit of a byte.
pub set_bit_lem :
    (k j x : ℕ)
    → k < 8
    → j < 8
    → x < 256
    → (is_set j (set_bit k x) ≡ (k == j || is_set j x)) × (set_bit k x < 256)
set_bit_lem k j x hk hj hx =
    let (l, r) =
      both (same (is_set j (set_bit k x)) (k == j || is_set j x)) (ltb (set_bit k x) 256)
        (on_bytes_lem sets k j x sets_table hk hj hx) in
    (same_iff (is_set j (set_bit k x)) (k == j || is_set j x) l, below (set_bit k x) r)

-- Clearing one bit of a byte.
pub clear_bit_lem :
    (k j x : ℕ)
    → k < 8
    → j < 8
    → x < 256
    → (is_set j (clear_bit k x) ≡ (not (k == j) && is_set j x)) × (clear_bit k x < 256)
clear_bit_lem k j x hk hj hx =
    let (l, r) =
      both (same (is_set j (clear_bit k x)) (not (k == j) && is_set j x)) (ltb (clear_bit k x) 256)
        (on_bytes_lem clears k j x clears_table hk hj hx) in
    (same_iff (is_set j (clear_bit k x)) (not (k == j) && is_set j x) l, below (clear_bit k x) r)
