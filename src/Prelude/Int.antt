-- ===== src/Prelude/Int.antt =====
-- C's `int` and `long` as integers over the native numbers.
use Prim.Native.Nat.{ℕ, suc, zero}
use mathlib.Core.Path.{◌≡◌, refl}
use mathlib.Core.Bool.{Bool, true, false}
use native.Mathlib.Omega.{arith}

-- `negsuc n` is -(n + 1).
pub data ℤ : Type 0 where
  pos : ℕ → ℤ
  negsuc : ℕ → ℤ

unfoldable pub succ : ℤ → ℤ
succ (pos n) = pos (suc n)
succ (negsuc zero) = pos 0
succ (negsuc (suc n)) = negsuc n

unfoldable pub pred : ℤ → ℤ
pred (pos zero) = negsuc 0
pred (pos (suc n)) = pos n
pred (negsuc n) = negsuc (suc n)

abbrev pub is_neg : ℤ → Bool
is_neg (pos n) = false
is_neg (negsuc n) = true

abbrev pub is_pos : ℤ → Bool
is_pos (pos zero) = false
is_pos (pos (suc n)) = true
is_pos (negsuc n) = false

abbrev pub IsNat : ℤ → Type 0
IsNat i = is_neg i ≡ false

pub pred-succ : (i : ℤ) → pred (succ i) ≡ i
unfolding pred succ
pred-succ (pos n) = refl
pred-succ (negsuc zero) = refl
pred-succ (negsuc (suc n)) = refl

pub succ-pred : (i : ℤ) → succ (pred i) ≡ i
unfolding pred succ
succ-pred (pos zero) = refl
succ-pred (pos (suc n)) = refl
succ-pred (negsuc n) = refl

-- A counter that is not negative is positive after an increment.
pub succ-is_pos : (i : ℤ) → IsNat i → (is_pos (succ i) ≡ true) × IsNat (succ i)
unfolding succ
succ-is_pos (pos n) h = (refl, refl)
succ-is_pos (negsuc n) h = ground arith

pub pred-IsNat : (i : ℤ) → is_pos i ≡ true → IsNat (pred i)
unfolding pred
pred-IsNat (pos zero) h = ground arith
pred-IsNat (pos (suc n)) h = refl
pred-IsNat (negsuc n) h = ground arith

pub is_pos-not_neg : (i : ℤ) → is_pos i ≡ true → IsNat i
is_pos-not_neg (pos n) h = refl
is_pos-not_neg (negsuc n) h = ground arith
