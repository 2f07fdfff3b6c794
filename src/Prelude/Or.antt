-- ===== src/Prelude/Or.antt =====
-- `bit_or` of numbers that share no digit.
use Prim.Native.Nat.{
  ℕ, zero, suc, ◌+◌, ◌*◌, ◌/◌, ◌%◌, ◌<◌, ◌≤◌, bit_or, bit_or-bitwise, digits, max,
}
use mathlib.Core.Path.{◌≡◌, refl}
use native.Mathlib.Omega.{arith}

abbrev merged : ℕ → ℕ → ℕ → ℕ
merged rounds x y = digits (λ d. d) max rounds x y

-- More rounds than digits change nothing.
merged-enough : (i j x y : ℕ) → x ≤ i → x ≤ j → merged i x y ≡ merged j x y
merged-enough (suc i) (suc j) (suc x) y le le' =
    omega (arith, merged-enough i j (suc x / 2) (y / 2) (omega arith) (omega arith))
merged-enough (suc i) (suc j) zero y le le' = refl
merged-enough zero zero x y le le' = refl
merged-enough zero (suc j) zero y le le' = refl
merged-enough (suc i) zero zero y le le' = refl
merged-enough zero (suc j) (suc x) y le le' = absurd (omega arith)
merged-enough (suc i) zero (suc x) y le le' = absurd (omega arith)

pub or_last_digit : (x y : ℕ) → bit_or x y ≡ bit_or (x / 2) (y / 2) * 2 + max (x % 2) (y % 2)
or_last_digit zero y = omega (arith, bit_or-bitwise 0 y, bit_or-bitwise 0 (y / 2))
or_last_digit (suc x) y =
    let rounds = merged-enough x (suc x / 2) (suc x / 2) (y / 2) (omega arith) (omega arith) in
    omega (arith, rounds, bit_or-bitwise (suc x / 2) (y / 2), bit_or-bitwise (suc x) y)

pub or_none : (rounds x : ℕ) → x ≤ rounds → bit_or x 0 ≡ x
or_none rounds zero le = refl
or_none zero (suc x) le = absurd (omega arith)
or_none (suc rounds) (suc x) le =
    omega (arith, or_last_digit (suc x) 0, or_none rounds (suc x / 2) (omega arith))

-- Below a power of two the digits of a multiple of it are free.
abbrev pub IsFree : ℕ → Type 0
IsFree p = (c y : ℕ) → y < p → bit_or (c * p) y ≡ c * p + y

mod_one : IsFree 1
mod_one c zero lt = let e : c * 1 ≡ c = omega arith in rw e omega (arith, or_none c c (omega arith))
mod_one c (suc y) lt = absurd (omega arith)

pub twice : (p : ℕ) → IsFree p → IsFree (p + p)
twice p free c y lt =
    let e : c * (p + p) ≡ c * p + c * p = grind arith in
    rw e (step (c * p) (free c (y / 2) (omega arith)))
  where
    step : (x : ℕ) → bit_or x (y / 2) ≡ x + y / 2 → bit_or (x + x) y ≡ x + x + y
    step x ih =
        let half : (x + x) / 2 ≡ x = omega arith in
        let last = or_last_digit (x + x) y in omega (arith, ih, rw half at last)

pub mod_four : IsFree 4
mod_four = twice 2 (twice 1 mod_one)

pub mod_512 : IsFree 512
mod_512 = twice 256 (twice 128 (twice 64 (twice 32 (twice 16 (twice 8 (twice 4 mod_four))))))

pub mod_pte : IsFree 1024
mod_pte = twice 512 mod_512

pub mod_page : IsFree 4096
mod_page = twice 2048 (twice 1024 mod_pte)

max_comm : (a b : ℕ) → max a b ≡ max b a
max_comm a b = omega arith

or_swap : (rounds x y : ℕ) → x ≤ rounds → y ≤ rounds → bit_or x y ≡ bit_or y x
or_swap zero zero zero le le' = refl
or_swap zero (suc x) y le le' = absurd (omega arith)
or_swap zero zero (suc y) le le' = absurd (omega arith)
or_swap (suc k) x y le le' = omega (
  arith,
  or_last_digit x y,
  or_last_digit y x,
  or_swap k (x / 2) (y / 2) (omega arith) (omega arith),
  max_comm (x % 2) (y % 2),
)

pub or_comm : (x y : ℕ) → bit_or x y ≡ bit_or y x
or_comm x y = or_swap (x + y) x y (omega arith) (omega arith)
