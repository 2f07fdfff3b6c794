-- ===== src/Vm/Tests/Fields.antt =====
-- kernel/ptdup.h, `copyin` of kernel/vm.c and `reconst_from_PTED` on concrete words.
use ev.Prelude.{
  ℕ, zero, suc, ◌+◌, ◌*◌, ◌/◌, ◌%◌, ◌<◌, ◌≡◌, ◌≢◌, refl, Bool, false, List, [], ◌∷◌, Option, none,
  some, ok, ◌==◌, if◌then◌else◌, upd, arith,
}
use ev.MList.Pagetable.{Page}
use ev.Strings.{Bytes}
use ev.Vm.{State, Words, pa2pte, pgrounddown}
use ev.Vm.Ptdup.{pted2va, pted2ppn, pted2flags, ptds2size, ptds2order, ptds2ub}
use ev.Vm.Ptdup.Pack.{pted_word, ptds_word, pted-pted_word, ptds-ptds_word}
use ev.Vm.Walk.{walkaddr}
use ev.Vm.Copy.{copyin, copyinstr}
use ev.Vm.Copy.In.{phys, Copied, Mapped, Separate, copyin-Copied}
use ev.Vm.Recovery.{reconst_from_pted}
use ev.Vm.Recovery.Level0.{AllRestored, reconst_from_pted-Restored}
use ev.Vm.Tests.{start}

pted-pted_word_example :
    let e = pted_word 0x5000 0x80021000 0x1e in
    (pted2va e ≡ 0x5000) × (pted2ppn e ≡ pa2pte 0x80021000) × (pted2flags e ≡ 0x1e)
pted-pted_word_example = pted-pted_word 5 0x80021 0x1e (omega arith) (omega arith) (omega arith)

ptds-ptds_word_example :
    let e = ptds_word 0x5000 0x80021000 1 0x10 3 in
    (pted2va e ≡ 0x5000)
    × (pted2ppn e ≡ pa2pte 0x80021000)
    × (ptds2order e ≡ 1)
    × (ptds2ub e ≡ 0x10 / 16 % 2 * 16)
    × (ptds2size e ≡ 3)
ptds-ptds_word_example =
    ptds-ptds_word 5 0x80021 1 0x10 3 (omega arith) (omega arith) (omega arith) (omega arith)

abbrev duplicated : Page
duplicated = record {
  base = 0x80044000;
  words = pted_word 0x5000 0x80021000 0x1e ∷ pted_word 0x6000 0x80025000 0x1e ∷ 0 ∷ [];
}

abbrev with_pted : State
with_pted = record start { heads = λ i. record (start.heads i) { l0_pted = duplicated ∷ [] } }

reconst_from_pted-Restored_example :
    (r : Words × Bool) × (reconst_from_pted 0 0 with_pted (λ i. 0) ≡ ok r)
    × ((k : ℕ) → ◌≢◌ {A = ℕ} 0 0 → r.0 k ≡ 0)
    × (r.1 ≡ false → AllRestored 0 r.0 (duplicated ∷ []))
reconst_from_pted-Restored_example =
    reconst_from_pted-Restored 0 0 with_pted (λ i. 0) duplicated [] refl

-- A page table with the same words everywhere: each page is mapped to the page at 0x1000.
abbrev everywhere : ℕ → Words
everywhere page i = 0x417

abbrev letters : Bytes
letters i = if i == 0x1ffe then 65 else if i == 0x1fff then 66 else if i == 0x1000 then 67 else 0

all-Mapped : Mapped everywhere 0 0x5ffe 3
unfolding walkaddr pgrounddown
all-Mapped zero lt = λ e. omega arith
all-Mapped (suc zero) lt = λ e. omega arith
all-Mapped (suc (suc zero)) lt = λ e. omega arith
all-Mapped (suc (suc (suc i))) lt = absurd (omega arith)

low : (i : ℕ) → i < 3 → phys everywhere 0 (0x5ffe + i) < 0x9000
unfolding phys walkaddr pgrounddown
low zero lt = omega arith
low (suc zero) lt = omega arith
low (suc (suc zero)) lt = omega arith
low (suc (suc (suc i))) lt = absurd (omega arith)

apart : Separate everywhere 0 0x9000 0x5ffe 3
apart i j li lj = λ e. let l = low i li in omega arith

copyin-Copied_example :
    (b' : Bytes) × (copyin everywhere 0 0x9000 0x5ffe 3 letters ≡ some b')
    × Copied everywhere 0 0x9000 0x5ffe 3 letters b'
copyin-Copied_example = copyin-Copied everywhere 0 0x9000 0x5ffe 3 letters all-Mapped apart

abbrev four_bytes : Option Bytes → List ℕ
four_bytes none = []
four_bytes (some b) = b 0x100 ∷ b 0x101 ∷ b 0x102 ∷ b 0x103 ∷ []

-- A string that goes over the end of a page, with and without room for its end.
string_test : four_bytes (copyinstr everywhere 0 0x100 0x5ffe 10 letters) ≡ 65 ∷ 66 ∷ 67 ∷ 0 ∷ []
unfolding copyinstr upd
string_test = refl

short_test : four_bytes (copyinstr everywhere 0 0x100 0x5ffe 3 letters) ≡ []
unfolding copyinstr upd
short_test = refl
