-- ===== src/Proc/Table.antt =====
-- kernel/proc.c: reading the table after a change.
use ev.Prelude.{
  ℕ, zero, suc, ◌≡◌, ◌≢◌, refl, sym, ap, ◌⊎◌, Bool, true, false, List, [], ◌∷◌, none, some, map,
  set, arith, Bool-cases, Option-cases, inl, inr,
}
use ev.Proc.{Proc, at, blank, find_index}

pub at-set_ne : (t : List Proc) (i j : ℕ) (p : Proc) → j ≢ i → at (set t i p) j ≡ at t j
at-set_ne [] i j p ne = refl
at-set_ne (x ∷ xs) zero zero p ne = absurd (ne refl)
at-set_ne (x ∷ xs) zero (suc j) p ne = refl
at-set_ne (x ∷ xs) (suc i) zero p ne = refl
at-set_ne (x ∷ xs) (suc i) (suc j) p ne = at-set_ne xs i j p (λ e. ne (ap suc e))

-- A write behind the table changes nothing.
pub at-set_self :
    (t : List Proc) (i : ℕ) (p : Proc)
    → (at (set t i p) i ≡ p) ⊎ ((set t i p ≡ t) × (at t i ≡ blank))
at-set_self [] i p = inr (refl, refl)
at-set_self (x ∷ xs) zero p = inl refl
at-set_self (x ∷ xs) (suc i) p = elim (at-set_self xs i p) [
  | inl e ↦ inl e
  | inr (e, b) ↦ inr (ap (λ ys. x ∷ ys) e, b)
]

pub at-map :
    (f : Proc → Proc) (t : List Proc) (i : ℕ) → f blank ≡ blank → at (map f t) i ≡ f (at t i)
at-map f [] i e = sym e
at-map f (x ∷ xs) zero e = refl
at-map f (x ∷ xs) (suc i) e = at-map f xs i e

pub find_index-some :
    (test : Proc → Bool) (t : List Proc) (i : ℕ) → find_index test t ≡ some i → test (at t i) ≡ true
unfolding find_index
find_index-some test [] i e = ground arith
find_index-some test (x ∷ xs) zero e = elim (Option-cases (find_index test xs)) [
  | inl w ↦ ground arith
  | inr w ↦ ground arith
]
find_index-some test (x ∷ xs) (suc i) e = elim (Option-cases (find_index test xs)) [
  | inl w ↦ ground arith
  | inr (k, w) ↦ elim (Bool-cases (test x)) [
    | inl b ↦ ground arith
    | inr b ↦ find_index-some test xs i (ground arith)
  ]
]

pub find_index-none :
    (test : Proc → Bool) (t : List Proc) (i : ℕ)
    → test blank ≡ false
    → find_index test t ≡ none
    → test (at t i) ≡ false
unfolding find_index
find_index-none test [] i b e = b
find_index-none test (x ∷ xs) zero b e = ground arith
find_index-none test (x ∷ xs) (suc i) b e = elim (Option-cases (find_index test xs)) [
  | inl w ↦ find_index-none test xs i b w
  | inr (k, w) ↦ ground arith
]
