-- ===== src/Vm/Copy/In.antt =====
-- kernel/vm.c: `copyin` against the virtual addresses byte by byte.
use ev.Prelude.{
  ℕ, zero, suc, ◌+◌, ◌-◌, ◌*◌, ◌/◌, ◌<◌, ◌≤◌, ◌≡◌, ◌≢◌, refl, sym, ap, ◌∙◌, ◌⊎◌, inl, inr, true,
  false, ◌&&◌, some, ◌==◌, ltb, leb, Bool-cases, arith,
}
use ev.Params.{pgsize}
use ev.Strings.{Bytes, memmove}
use ev.Strings.Move.{moved, memmove-moved}
use ev.Vm.{Words, pgrounddown}
use ev.Vm.Walk.{walkaddr}
use ev.Vm.Copy.{chunk, copyin_from, copyin}

-- The physical address of a byte of a process.
unfoldable pub phys : (ℕ → Words) → (root va : ℕ) → ℕ
phys m root va = walkaddr m root (pgrounddown va) + (va - pgrounddown va)

-- A round takes bytes of one page, and all that are left unless it ends at the page's end.
chunk_lem :
    (va len : ℕ)
    → 0 < len
    → (0 < chunk va len)
      × (chunk va len ≤ len)
      × ((i : ℕ) → i < chunk va len → pgrounddown (va + i) ≡ pgrounddown va)
      × ((chunk va len ≡ len) ⊎ (va + chunk va len ≡ pgrounddown va + pgsize))
unfolding chunk pgrounddown
chunk_lem va len lt = elim (Bool-cases (ltb len (pgsize - (va - va / pgsize * pgsize)))) [
  | inl e ↦ rw e (lt, omega arith, λ i li. ground arith, inl refl)
  | inr e ↦ rw e (omega arith, ground arith, λ i li. ground arith, inr (omega arith))
]

down : (va : ℕ) → pgrounddown va ≤ va
unfolding pgrounddown
down va = omega arith

in_chunk :
    (m : ℕ → Words) (root va len i : ℕ)
    → 0 < len
    → i < chunk va len
    → phys m root (va + i) ≡ walkaddr m root (pgrounddown va) + (va - pgrounddown va) + i
unfolding phys
in_chunk m root va len i lt li =
    let (a, b, c, d) = chunk_lem va len lt in let e = c i li in rw e omega (arith, down va)

-- What a copy of `len` bytes to `dst` has to leave.
pub record Copied (m : ℕ → Words) (root dst srcva len : ℕ) (b b' : Bytes) : Type 0 where
  pub bytes : (i : ℕ) → i < len → b' (dst + i) ≡ b (phys m root (srcva + i))
  pub rest : (x : ℕ) → (x < dst) ⊎ (dst + len ≤ x) → b' x ≡ b x

copyin_none_left :
    (m : ℕ → Words) (root k dst srcva : ℕ) (b : Bytes) → copyin_from m root k dst srcva 0 b ≡ some b
unfolding copyin_from
copyin_none_left m root zero dst srcva b = refl
copyin_none_left m root (suc k) dst srcva b = refl

-- A round with a mapped page.
copyin_round :
    (m : ℕ → Words) (root k dst srcva len : ℕ) (b : Bytes)
    → 0 < len
    → walkaddr m root (pgrounddown srcva) ≢ 0
    → let n = chunk srcva len in
      copyin_from m root (suc k) dst srcva len b
      ≡ copyin_from m root k
          (dst + n)
          (pgrounddown srcva + pgsize)
          (len - n)
          (memmove dst (walkaddr m root (pgrounddown srcva) + (srcva - pgrounddown srcva)) n b)
unfolding copyin_from
copyin_round m root k dst srcva len b lt nz =
    let p : (len == 0) ≡ false = ground arith in
    let q : (walkaddr m root (pgrounddown srcva) == 0) ≡ false = ground arith in rw (p, q) refl

abbrev pub Mapped : (ℕ → Words) → (root srcva len : ℕ) → Type 0
Mapped m root srcva len = (i : ℕ) → i < len → walkaddr m root (pgrounddown (srcva + i)) ≢ 0

-- No byte of the target is one of the source.
abbrev pub Separate : (ℕ → Words) → (root dst srcva len : ℕ) → Type 0
Separate m root dst srcva len = (i j : ℕ) → i < len → j < len → phys m root (srcva + i) ≢ dst + j

moved_in : (dst src n i : ℕ) (b : Bytes) → i < n → moved dst src n b (dst + i) ≡ b (src + i)
unfolding moved
moved_in dst src n i b lt =
    let e : dst + i - dst + src ≡ src + i = omega arith in
    let p : (leb dst (dst + i) && ltb (dst + i) (dst + n)) ≡ true = ground arith in rw (p, e) refl

moved_out : (dst src n x : ℕ) (b : Bytes) → (x < dst) ⊎ (dst + n ≤ x) → moved dst src n b x ≡ b x
unfolding moved
moved_out dst src n x b o = ground arith

-- What one `memmove` does.
first_chunk :
    (m : ℕ → Words) (root dst srcva len : ℕ) (b : Bytes)
    → 0 < len
    → let n = chunk srcva len in
      Copied m root dst srcva n b
        (memmove dst (walkaddr m root (pgrounddown srcva) + (srcva - pgrounddown srcva)) n b)
first_chunk m root dst srcva len b lt = record {
  bytes = λ i li.
      let p = in_chunk m root srcva len i lt li in
      let q =
        memmove-moved dst (walkaddr m root (pgrounddown srcva) + (srcva - pgrounddown srcva))
          (chunk srcva len) b (dst + i) in
      q
      ∙ moved_in dst (walkaddr m root (pgrounddown srcva) + (srcva - pgrounddown srcva))
          (chunk srcva len) i b li
      ∙ ap b (sym p);
  rest = λ x o.
      let q =
        memmove-moved dst (walkaddr m root (pgrounddown srcva) + (srcva - pgrounddown srcva))
          (chunk srcva len) b x in
      q
      ∙ moved_out dst (walkaddr m root (pgrounddown srcva) + (srcva - pgrounddown srcva))
          (chunk srcva len) x b o;
}

wider :
    (dst n len x : ℕ)
    → n ≤ len
    → (x < dst) ⊎ (dst + len ≤ x)
    → (x < dst + n) ⊎ (dst + n + (len - n) ≤ x)
wider dst n len x le (inl e) = inl (omega arith)
wider dst n len x le (inr e) = inr (omega arith)

narrower : (dst n len x : ℕ) → n ≤ len → (x < dst) ⊎ (dst + len ≤ x) → (x < dst) ⊎ (dst + n ≤ x)
narrower dst n len x le (inl e) = inl e
narrower dst n len x le (inr e) = inr (omega arith)

outside :
    (m : ℕ → Words) (root dst srcva n len i : ℕ)
    → n ≤ len
    → i < len
    → Separate m root dst srcva len
    → (phys m root (srcva + i) < dst) ⊎ (dst + n ≤ phys m root (srcva + i))
outside m root dst srcva n len i le lt apart =
    elim (Bool-cases (ltb (phys m root (srcva + i)) dst)) [
      | inl e ↦ inl (ground arith)
      | inr e ↦ elim (Bool-cases (leb (dst + n) (phys m root (srcva + i)))) [
        | inl f ↦ inr (ground arith)
        | inr f ↦
            let le' : dst ≤ phys m root (srcva + i) = ground arith in
            let lt' : phys m root (srcva + i) < dst + n = ground arith in
            absurd (apart i (phys m root (srcva + i) - dst) lt (omega arith) (omega arith))
      ]
    ]

join_Copied :
    (m : ℕ → Words) (root dst srcva n len : ℕ) (b b1 b' : Bytes)
    → n ≤ len
    → Separate m root dst srcva len
    → Copied m root dst srcva n b b1
    → Copied m root (dst + n) (srcva + n) (len - n) b1 b'
    → Copied m root dst srcva len b b'
join_Copied m root dst srcva n len b b1 b' le apart w v = record {
  bytes = λ i lt. elim (Bool-cases (ltb i n)) [
    | inl e ↦ v.rest (dst + i) (inl (ground arith)) ∙ w.bytes i (ground arith)
    | inr e ↦
        let p : dst + n + (i - n) ≡ dst + i = ground arith in
        let q : srcva + n + (i - n) ≡ srcva + i = ground arith in
        let f : b' (dst + i) ≡ b1 (phys m root (srcva + i)) =
          let g = v.bytes (i - n) (ground arith) in rw (p, q) at g in
        f ∙ w.rest (phys m root (srcva + i)) (outside m root dst srcva n len i le lt apart)
  ];
  rest = λ x o. v.rest x (wider dst n len x le o) ∙ w.rest x (narrower dst n len x le o);
}

nothing_Copied : (m : ℕ → Words) (root dst srcva : ℕ) (b : Bytes) → Copied m root dst srcva 0 b b
nothing_Copied m root dst srcva b = record {
  bytes = λ i lt. absurd (omega arith);
  rest = λ x o. refl;
}

tail_Mapped :
    (m : ℕ → Words) (root srcva n len : ℕ)
    → Mapped m root srcva len
    → Mapped m root (srcva + n) (len - n)
tail_Mapped m root srcva n len mapped i li =
    let e : srcva + n + i ≡ srcva + (n + i) = omega arith in rw e (mapped (n + i) (omega arith))

tail_Separate :
    (m : ℕ → Words) (root dst srcva n len : ℕ)
    → Separate m root dst srcva len
    → Separate m root (dst + n) (srcva + n) (len - n)
tail_Separate m root dst srcva n len apart i j li lj =
    let e : srcva + n + i ≡ srcva + (n + i) = omega arith in
    let f : dst + n + j ≡ dst + (n + j) = omega arith in
    rw (e, f) (apart (n + i) (n + j) (omega arith) (omega arith))

of_length :
    (m : ℕ → Words) (root dst srcva n len : ℕ) (b b' : Bytes)
    → n ≡ len
    → Copied m root dst srcva n b b'
    → Copied m root dst srcva len b b'
of_length m root dst srcva n len b b' e w = rw e at w

copyin_from_lem :
    (k : ℕ) (m : ℕ → Words) (root dst srcva len : ℕ) (b : Bytes)
    → len ≤ k
    → Mapped m root srcva len
    → Separate m root dst srcva len
    → (b' : Bytes) × (copyin_from m root k dst srcva len b ≡ some b')
      × Copied m root dst srcva len b b'
copyin_from_lem zero m root dst srcva len b le mapped apart =
    let z : len ≡ 0 = omega arith in
    rw z (b, copyin_none_left m root 0 dst srcva b, nothing_Copied m root dst srcva b)
copyin_from_lem (suc k) m root dst srcva len b le mapped apart = elim (Bool-cases (len == 0)) [
  | inl e ↦
      let z : len ≡ 0 = ground arith in
      rw z (b, copyin_none_left m root (suc k) dst srcva b, nothing_Copied m root dst srcva b)
  | inr e ↦
      let lt : 0 < len = ground arith in
      let (some_, small, same, end_) = chunk_lem srcva len lt in
      let n = chunk srcva len in
      let pa = walkaddr m root (pgrounddown srcva) + (srcva - pgrounddown srcva) in
      let b1 = memmove dst pa n b in
      let nz : walkaddr m root (pgrounddown srcva) ≢ 0 =
        let z : srcva + 0 ≡ srcva = omega arith in let m0 = mapped 0 lt in rw z at m0 in
      let step = copyin_round m root k dst srcva len b lt nz in
      let first = first_chunk m root dst srcva len b lt in
      elim end_ [
        | inl all ↦
            let z : len - n ≡ 0 = omega arith in
            let f : copyin_from m root k (dst + n) (pgrounddown srcva + pgsize) (len - n) b1
                ≡ some b1 =
              rw z (copyin_none_left m root k (dst + n) (pgrounddown srcva + pgsize) b1) in
            (b1, step ∙ f, of_length m root dst srcva n len b b1 all first)
        | inr at_end ↦
            let (b', f, v) =
              copyin_from_lem k m root (dst + n) (srcva + n) (len - n) b1 (omega arith)
                (tail_Mapped m root srcva n len mapped)
                (tail_Separate m root dst srcva n len apart) in
            let f' : copyin_from m root k (dst + n) (pgrounddown srcva + pgsize) (len - n) b1
                ≡ some b' =
              rw (← at_end) f in
            (b', step ∙ f', join_Copied m root dst srcva n len b b1 b' small apart first v)
      ]
]

-- `copyin` from addresses that are all mapped for the user succeeds, however many pages they lie on: each
-- byte of the target is that at the physical address of its virtual address, and nothing else is
-- changed. No byte of the target is one of the source.
pub copyin-Copied :
    (m : ℕ → Words) (root dst srcva len : ℕ) (b : Bytes)
    → Mapped m root srcva len
    → Separate m root dst srcva len
    → (b' : Bytes) × (copyin m root dst srcva len b ≡ some b') × Copied m root dst srcva len b b'
unfolding copyin
copyin-Copied m root dst srcva len b mapped apart =
    copyin_from_lem len m root dst srcva len b (omega arith) mapped apart
