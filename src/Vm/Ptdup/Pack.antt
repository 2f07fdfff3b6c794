-- ===== src/Vm/Ptdup/Pack.antt =====
-- kernel/ptdup.h: the fields of the words of the two lists, as kernel/vm.c puts them together.
use ev.Prelude.{ℕ, zero, suc, ◌+◌, ◌*◌, ◌/◌, ◌%◌, ◌^◌, ◌<◌, ◌≡◌, arith}
use ev.Prelude.Or.{IsFree, twice, mod_page, mod_pte, mod_512, or_comm}
use ev.Vm.{pa2pte}
use ev.Vm.Ptdup.{
  pted2va, va2pted, pted2ppn, ppn2pted, pted2flags, ptds2size, ptds2order, ptds2ub, ub2ptds,
}
use Prim.Native.Nat.{bit_or}

-- A PTED: `VA2PTED(va)|PPN2PTED(PA2PTE(pa))|flags`.
unfoldable pub pted_word : (va pa flags : ℕ) → ℕ
unfolding va2pted ppn2pted pa2pte
pted_word va pa flags = bit_or (bit_or (va2pted va) (ppn2pted (pa2pte pa))) flags

-- A PTDS: `entry|ORDER2PTDS(order)|UB2PTDS(perm)|size`, where `entry` is `PPN2PTDS(PA2PTE(pa)) | VA2PTDS(va)`.
unfoldable pub ptds_word : (va pa order perm size : ℕ) → ℕ
unfolding va2pted ppn2pted pa2pte ub2ptds
ptds_word va pa order perm size =
    bit_or
      (bit_or (bit_or (bit_or (ppn2pted (pa2pte pa)) (va2pted va)) (order * 1024)) (ub2ptds perm))
      size

abbrev doubled : ℕ → ℕ → ℕ
doubled zero p = p
doubled (suc k) p = doubled k (p + p)

doubled_free : (k p : ℕ) → IsFree p → IsFree (doubled k p)
doubled_free zero p free = free
doubled_free (suc k) p free = doubled_free k (p + p) (twice p free)

mod_va : IsFree (2 ^ 38)
mod_va = doubled_free 26 4096 mod_page

-- What `L0_ptes_add` is given for the page `page` at the virtual page `v` is read back: the virtual
-- address, the entry's part for the physical address, and the flags, which have nine bits. Both
-- pages lie below 2^38.
pub pted-pted_word :
    (v page flags : ℕ)
    → v < 2 ^ 26
    → page < 2 ^ 26
    → flags < 512
    → let e = pted_word (v * 4096) (page * 4096) flags in
      (pted2va e ≡ v * 4096) × (pted2ppn e ≡ pa2pte (page * 4096)) × (pted2flags e ≡ flags)
unfolding pted_word va2pted ppn2pted pa2pte pted2va pted2ppn pted2flags
pted-pted_word v page flags lv lp lf =
    let a : v * 4096 * 2 ^ 26 % 2 ^ 64 ≡ v * 2 ^ 38 = omega arith in
    let b : page * 4096 / 4096 * 1024 % 2 ^ 64 / 1024 * 4096 % 2 ^ 64 ≡ page * 4096 = omega arith in
    let first : bit_or (v * 2 ^ 38) (page * 4096) ≡ v * 2 ^ 38 + page * 4096 =
      mod_va v (page * 4096) (omega arith) in
    let c : v * 2 ^ 38 + page * 4096 ≡ (v * 2 ^ 26 + page) * 4096 = omega arith in
    let second : bit_or (v * 2 ^ 38 + page * 4096) flags ≡ v * 2 ^ 38 + page * 4096 + flags =
      rw c (mod_page (v * 2 ^ 26 + page) flags (omega arith)) in
    rw (a, b, first, second) (omega arith, omega arith, omega arith)

-- A PTDS for a run from the page `page` at the virtual page `v` is read back: both addresses, the
-- order, the user bit and the size, which is below 512.
pub ptds-ptds_word :
    (v page order perm size : ℕ)
    → v < 2 ^ 26
    → page < 2 ^ 26
    → order < 2
    → size < 512
    → let e = ptds_word (v * 4096) (page * 4096) order perm size in
      (pted2va e ≡ v * 4096)
      × (pted2ppn e ≡ pa2pte (page * 4096))
      × (ptds2order e ≡ order)
      × (ptds2ub e ≡ perm / 16 % 2 * 16)
      × (ptds2size e ≡ size)
unfolding ptds_word va2pted ppn2pted pa2pte pted2va pted2ppn ptds2order ptds2ub ptds2size ub2ptds
ptds-ptds_word v page order perm size lv lp lo ls =
    let u = perm / 16 % 2 in
    let lu : u < 2 = omega arith in
    let a : v * 4096 * 2 ^ 26 % 2 ^ 64 ≡ v * 2 ^ 38 = omega arith in
    let b : page * 4096 / 4096 * 1024 % 2 ^ 64 / 1024 * 4096 % 2 ^ 64 ≡ page * 4096 = omega arith in
    let first : bit_or (page * 4096) (v * 2 ^ 38) ≡ v * 2 ^ 38 + page * 4096 =
      rw (or_comm (page * 4096) (v * 2 ^ 38)) (mod_va v (page * 4096) (omega arith)) in
    let c : v * 2 ^ 38 + page * 4096 ≡ (v * 2 ^ 26 + page) * 4096 = omega arith in
    let second : bit_or (v * 2 ^ 38 + page * 4096) (order * 1024)
        ≡ v * 2 ^ 38 + page * 4096 + order * 1024 =
      rw c (mod_page (v * 2 ^ 26 + page) (order * 1024) (omega arith)) in
    let d : v * 2 ^ 38 + page * 4096 + order * 1024 ≡ (v * 2 ^ 28 + page * 4 + order) * 1024 =
      omega arith in
    let third : bit_or (v * 2 ^ 38 + page * 4096 + order * 1024) (u * 512)
        ≡ v * 2 ^ 38 + page * 4096 + order * 1024 + u * 512 =
      rw d (mod_pte (v * 2 ^ 28 + page * 4 + order) (u * 512) (omega arith)) in
    let f : v * 2 ^ 38 + page * 4096 + order * 1024 + u * 512
        ≡ (v * 2 ^ 29 + page * 8 + order * 2 + u) * 512 =
      omega arith in
    let fourth : bit_or (v * 2 ^ 38 + page * 4096 + order * 1024 + u * 512) size
        ≡ v * 2 ^ 38 + page * 4096 + order * 1024 + u * 512 + size =
      rw f (mod_512 (v * 2 ^ 29 + page * 8 + order * 2 + u) size ls) in
    rw (a, b, first, second, third, fourth)
      (omega arith, omega arith, omega arith, omega arith, omega arith)
