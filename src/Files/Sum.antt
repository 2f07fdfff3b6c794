-- ===== src/Files/Sum.antt =====
-- kernel/file.c: how many descriptors a file has.
use ev.Prelude.{
  ℕ, zero, suc, ◌+◌, ◌≡◌, refl, List, [], ◌∷◌, Option, none, some, ◌==◌, if◌then◌else◌, get_elem?,
  set, get_or, arith, Option-cases, inl, inr,
}
use ev.Files.{Ofile, free_fd}

abbrev pub hit : ℕ → Option ℕ → ℕ
hit f none = 0
hit f (some g) = if g == f then 1 else 0

unfoldable pub count : ℕ → Ofile → ℕ
count f [] = 0
count f (o ∷ os) = hit f o + count f os

unfoldable pub total : ℕ → List Ofile → ℕ
unfolding count
total f [] = 0
total f (os ∷ oss) = count f os + total f oss

pub count-set :
    (f fd : ℕ) (o v : Option ℕ) (os : Ofile)
    → get_elem? os fd ≡ some o
    → count f (set os fd v) + hit f o ≡ count f os + hit f v
unfolding count
count-set f fd o v [] e = ground arith
count-set f zero o v (x ∷ os) e = let q : x ≡ o = ground arith in rw q (omega arith)
count-set f (suc fd) o v (x ∷ os) e = omega (arith, count-set f fd o v os e)

pub total-set :
    (f me : ℕ) (oss : List Ofile) (fd : ℕ) (o v : Option ℕ)
    → get_elem? (get_or oss me []) fd ≡ some o
    → total f (set oss me (set (get_or oss me []) fd v)) + hit f o ≡ total f oss + hit f v
unfolding total
total-set f me [] fd o v e = ground arith
total-set f zero (x ∷ oss) fd o v e = omega (arith, count-set f fd o v x e)
total-set f (suc me) (x ∷ oss) fd o v e = omega (arith, total-set f me oss fd o v e)

pub free_fd-none : (os : Ofile) (fd : ℕ) → free_fd os ≡ some fd → get_elem? os fd ≡ some none
unfolding free_fd
free_fd-none [] fd e = ground arith
free_fd-none (none ∷ os) zero e = refl
free_fd-none (none ∷ os) (suc fd) e = ground arith
free_fd-none (some f ∷ os) fd e = elim (Option-cases (free_fd os)) [
  | inl w ↦ absurd (ground arith)
  | inr (k, w) ↦ let q : suc k ≡ fd = ground arith in rw (← q) (free_fd-none os k w)
]
