-- ===== src/Strings/Copy.antt =====
-- kernel/string.c: where `safestrcpy` writes.
use ev.Prelude.{ℕ, zero, suc, ◌+◌, ◌≡◌, ◌≤◌, ◌<◌, ◌⊎◌, inl, inr, ◌==◌, upd, arith, Bool-cases}
use ev.Strings.{Bytes, copy_string, safestrcpy}

copy_string-outside :
    (s t n : ℕ) (h : Bytes) (i : ℕ) → (i < s) ⊎ (s + n < i) → copy_string s t n h i ≡ h i
unfolding copy_string upd
copy_string-outside s t zero h i o = ground arith
copy_string-outside s t (suc n) h i o =
    ground (arith, copy_string-outside (s + 1) (t + 1) n (upd h s (h t)) i)

copy_string-ends : (s t n : ℕ) (h : Bytes) → (k : ℕ) × (k ≤ n) × (copy_string s t n h (s + k) ≡ 0)
unfolding copy_string upd
copy_string-ends s t zero h = (0, omega arith, ground arith)
copy_string-ends s t (suc n) h = elim (Bool-cases (h t == 0)) [
  | inl e ↦ (1, omega arith, ground arith)
  | inr e ↦
      let (k, le, z) = copy_string-ends (s + 1) (t + 1) n (upd h s (h t)) in
      (suc k, omega arith, ground arith)
]

-- With room for at least one byte, `safestrcpy` leaves a NUL in the target's range, and nothing
-- outside that range changes.
pub safestrcpy_lem :
    (s t n : ℕ) (h : Bytes)
    → 0 < n
    → ((k : ℕ) × (k < n) × (safestrcpy s t n h (s + k) ≡ 0))
      × ((i : ℕ) → (i < s) ⊎ (s + n ≤ i) → safestrcpy s t n h i ≡ h i)
unfolding safestrcpy
safestrcpy_lem s t zero h lt = absurd (omega arith)
safestrcpy_lem s t (suc n) h lt =
    let (k, le, z) = copy_string-ends s t n h in
    ((k, omega arith, z), λ i o. copy_string-outside s t n h i (ground arith))
