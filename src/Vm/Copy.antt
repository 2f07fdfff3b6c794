-- ===== src/Vm/Copy.antt =====
-- kernel/vm.c: copies between the kernel and the memory of a process. The page tables do not change
-- under them; the bytes are those of kernel/string.c.
pub mod In
use ev.Prelude.{
  ℕ, zero, suc, ◌+◌, ◌-◌, ◌*◌, ◌/◌, ◌%◌, ◌<◌, ◌≤◌, ◌≡◌, ◌≢◌, refl, ◌||◌, Bool, true, false, Option,
  none, some, ◌==◌, ltb, leb, if◌then◌else◌, Bool-cases, inl, inr, upd, arith,
}
use ev.Params.{pgsize}
use ev.Strings.{Bytes, memmove}
use ev.Vm.{Words, pgrounddown}
use ev.Vm.Walk.{walkaddr}

-- How much is copied in one round.
unfoldable pub chunk : (va len : ℕ) → ℕ
unfolding pgrounddown
chunk va len = let n : ℕ = pgsize - (va - pgrounddown va) in if ltb len n then len else n

-- The loop of `copyin`; `none` is its -1. Each round takes a byte at least, so `len` rounds are enough.
unfoldable pub copyin_from : (ℕ → Words) → (root rounds dst srcva len : ℕ) → Bytes → Option Bytes
unfolding walkaddr pgrounddown chunk memmove
copyin_from m root zero dst srcva len b = some b
copyin_from m root (suc k) dst srcva len b =
    if len == 0
    then some b
    else let pa0 = walkaddr m root (pgrounddown srcva) in
      elim (pa0 == 0) [
        | true ↦ none
        | false ↦
            let n = chunk srcva len in
            copyin_from m root k (dst + n) (pgrounddown srcva + pgsize) (len - n)
              (memmove dst (pa0 + (srcva - pgrounddown srcva)) n b)
      ]

unfoldable pub copyin : (ℕ → Words) → (root dst srcva len : ℕ) → Bytes → Option Bytes
unfolding copyin_from
copyin m root dst srcva len b = copyin_from m root len dst srcva len b

unfoldable pub copyout_from : (ℕ → Words) → (root rounds dstva src len : ℕ) → Bytes → Option Bytes
unfolding walkaddr pgrounddown chunk memmove
copyout_from m root zero dstva src len b = some b
copyout_from m root (suc k) dstva src len b =
    if len == 0
    then some b
    else let pa0 = walkaddr m root (pgrounddown dstva) in
      elim (pa0 == 0) [
        | true ↦ none
        | false ↦
            let n = chunk dstva len in
            copyout_from m root k (pgrounddown dstva + pgsize) (src + n) (len - n)
              (memmove (pa0 + (dstva - pgrounddown dstva)) src n b)
      ]

unfoldable pub copyout : (ℕ → Words) → (root dstva src len : ℕ) → Bytes → Option Bytes
unfolding copyout_from
copyout m root dstva src len b = copyout_from m root len dstva src len b

-- A copy of a string under way: whether its end was found, the rest of `max`, and where it goes on.
pub record StringCopy : Type 0 where
  pub got_null : Bool
  pub max : ℕ
  pub dst : ℕ
  pub bytes : Bytes

-- The rounds of the inner loop of `copyinstr` in one page.
unfoldable pub copy_to_null : (n p : ℕ) → StringCopy → StringCopy
copy_to_null zero p t = t
copy_to_null (suc n) p t = elim (t.bytes p == 0) [
  | true ↦ record t { got_null = true; bytes = upd t.bytes t.dst 0 }
  | false ↦
      copy_to_null n (suc p)
        (record t { max = t.max - 1; dst = suc t.dst; bytes = upd t.bytes t.dst (t.bytes p) })
]

-- The outer loop; a round in which no end is found makes `max` smaller.
unfoldable pub copyinstr_from : (ℕ → Words) → (root rounds srcva : ℕ) → StringCopy → Option Bytes
unfolding walkaddr pgrounddown chunk copy_to_null
copyinstr_from m root zero srcva t = if t.got_null then some t.bytes else none
copyinstr_from m root (suc k) srcva t =
    if t.got_null || t.max == 0
    then if t.got_null then some t.bytes else none
    else let pa0 = walkaddr m root (pgrounddown srcva) in
      elim (pa0 == 0) [
        | true ↦ none
        | false ↦
            copyinstr_from m root k (pgrounddown srcva + pgsize)
              (copy_to_null (chunk srcva t.max) (pa0 + (srcva - pgrounddown srcva)) t)
      ]

unfoldable pub copyinstr : (ℕ → Words) → (root dst srcva max : ℕ) → Bytes → Option Bytes
unfolding copyinstr_from
copyinstr m root dst srcva max b =
    copyinstr_from m root (suc max) srcva
      (record { got_null = false; max = max; dst = dst; bytes = b })
