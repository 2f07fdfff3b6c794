-- ===== src/Vm/Recovery/Level0.antt =====
-- kernel/recovery_handler_pagetable.c: a table of level 0 that was built again from its PTEDs.
use ev.Prelude.{
  ℕ, zero, suc, ◌%◌, ◌<◌, ◌≡◌, ◌≢◌, refl, ◌∙◌, inl, inr, Bool, true, false, List, [], ◌∷◌, ◌==◌, ok,
  Bool-cases, All, upd, upd_self, upd_ne, arith,
}
use ev.Prelude.Or.{or_last_digit}
use ev.MList.Pagetable.{Page}
use ev.Vm.{State, Words, px}
use ev.Vm.Ptdup.{pted2va, pted2ppn, pted2flags}
use ev.Vm.Recovery.{is_in, pte_of, from_pted, fold_words, fold_pages, reconst, reconst_from_pted}
use Prim.Native.Nat.{bit_or, max}

max_one : (x : ℕ) → 0 < max x 1
max_one zero = omega arith
max_one (suc x) = ground arith

or_one : (x : ℕ) → 0 < bit_or x 1
or_one x = omega (arith, or_last_digit x 1, max_one (x % 2))

pte_nonzero : (e : ℕ) → pte_of e ≢ 0
unfolding pte_of
pte_nonzero e h = ground (arith, or_one (bit_or (bit_or (pted2ppn e) 0x80) (pted2flags e)))

-- An entry that is filled stays, and a failure is kept.
record Grows (r r' : Words × Bool) : Type 0 where
  stays : (k : ℕ) → r.0 k ≢ 0 → r'.0 k ≡ r.0 k
  fails : r.1 ≡ true → r'.1 ≡ true

-- What the word `e` asks for stands in the table.
abbrev pub Restored : ℕ → Words → ℕ → Type 0
Restored sva w e = is_in sva e ≡ true → w (px 0 (pted2va e)) ≡ pte_of e

from_pted-cases :
    (sva e : ℕ) (r : Words × Bool)
    → (r' : Words × Bool) × (from_pted sva e r ≡ ok r')
      × Grows r r'
      × (r'.1 ≡ false → Restored sva r'.0 e)
unfolding from_pted
from_pted-cases sva e (w, b) = elim (Bool-cases (is_in sva e)) [
  | inr out ↦
      rw out (
        (w, b),
        refl,
        record { stays = λ k ne. refl; fails = λ h. h },
        λ h i. absurd (ground arith),
      )
  | inl i ↦ elim (Bool-cases (w (px 0 (pted2va e)) == 0)) [
    | inl z ↦
        rw (i, z)
          (
            (upd w (px 0 (pted2va e)) (pte_of e), b),
            refl,
            record {
              stays = λ k ne. upd_ne w (px 0 (pted2va e)) (pte_of e) k (λ f. ne (ground arith));
              fails = λ h. h;
            },
            λ h j. upd_self w (px 0 (pted2va e)) (pte_of e),
          )
    | inr z ↦
        rw (i, z)
          (
            (w, true),
            refl,
            record { stays = λ k ne. refl; fails = λ h. refl },
            λ h. absurd (ground arith),
          )
  ]
]

Grows-Grows : (r r' r'' : Words × Bool) → Grows r r' → Grows r' r'' → Grows r r''
Grows-Grows r r' r'' g h = record {
  stays = λ k ne. let e = g.stays k ne in h.stays k (rw e ne) ∙ e;
  fails = λ e. h.fails (g.fails e);
}

unfailed : (r r' : Words × Bool) → Grows r r' → r'.1 ≡ false → r.1 ≡ false
unfailed r r' g h = elim (Bool-cases r.1) [
  | inl e ↦ let f = g.fails e in absurd (ground arith)
  | inr e ↦ e
]

Restored-Grows :
    (sva e : ℕ) (r r' : Words × Bool) → Grows r r' → Restored sva r.0 e → Restored sva r'.0 e
Restored-Grows sva e r r' g h i =
    let f = h i in g.stays (px 0 (pted2va e)) (rw f (pte_nonzero e)) ∙ f

fold_words-Grows :
    (sva : ℕ) (es : List ℕ) (r : Words × Bool)
    → (r' : Words × Bool) × (fold_words (from_pted sva) es r ≡ ok r')
      × Grows r r'
      × (r'.1 ≡ false → All (Restored sva r'.0) es)
unfolding fold_words
fold_words-Grows sva [] r = (r, refl, record { stays = λ k ne. refl; fails = λ h. h }, λ h. tt)
fold_words-Grows sva (e ∷ es) r =
    let (r1, f, g, i) = from_pted-cases sva e r in
    let (r2, f', g', i') = fold_words-Grows sva es r1 in
    (
      r2,
      rw f f',
      Grows-Grows r r1 r2 g g',
      λ h. (Restored-Grows sva e r1 r2 g' (i (unfailed r1 r2 g' h)), i' h),
    )

abbrev pub AllRestored : ℕ → Words → List Page → Type 0
AllRestored sva w ps = All (λ p. All (Restored sva w) p.words) ps

All-Grows :
    (sva : ℕ) (es : List ℕ) (r r' : Words × Bool)
    → Grows r r'
    → All (Restored sva r.0) es
    → All (Restored sva r'.0) es
All-Grows sva [] r r' g a = tt
All-Grows sva (e ∷ es) r r' g (h, a) = (Restored-Grows sva e r r' g h, All-Grows sva es r r' g a)

fold_pages-Grows :
    (sva : ℕ) (ps : List Page) (r : Words × Bool)
    → (r' : Words × Bool) × (fold_pages (from_pted sva) ps r ≡ ok r')
      × Grows r r'
      × (r'.1 ≡ false → AllRestored sva r'.0 ps)
unfolding fold_pages
fold_pages-Grows sva [] r = (r, refl, record { stays = λ k ne. refl; fails = λ h. h }, λ h. tt)
fold_pages-Grows sva (p ∷ ps) r =
    let (r1, f, g, i) = fold_words-Grows sva p.words r in
    let (r2, f', g', i') = fold_pages-Grows sva ps r1 in
    (
      r2,
      rw f f',
      Grows-Grows r r1 r2 g g',
      λ h. (All-Grows sva p.words r1 r2 g' (i (unfailed r1 r2 g' h)), i' h),
    )

-- `reconst_from_PTED` ends on every list with a page, and changes no entry that is filled. When it
-- reports no error, every PTED of the 2 MB from `sva` on stands in the new table at its index, with its
-- physical address and flags, valid and dirty.
pub reconst_from_pted-Restored :
    (idx sva : ℕ) (s : State) (new : Words) (p : Page) (ps : List Page)
    → (s.heads idx).l0_pted ≡ p ∷ ps
    → (r : Words × Bool) × (reconst_from_pted idx sva s new ≡ ok r)
      × ((k : ℕ) → new k ≢ 0 → r.0 k ≡ new k)
      × (r.1 ≡ false → AllRestored sva r.0 (p ∷ ps))
unfolding reconst_from_pted reconst
reconst_from_pted-Restored idx sva s new p ps e =
    let (r, f, g, i) = fold_pages-Grows sva (p ∷ ps) (new, false) in (r, rw e f, g.stays, i)
