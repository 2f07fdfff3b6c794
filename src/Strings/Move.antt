-- ===== src/Strings/Move.antt =====
-- kernel/string.c: `memmove` against a copy of the old range.
use ev.Prelude.{
  ℕ, zero, suc, ◌+◌, ◌-◌, ◌≡◌, ◌≤◌, ◌⊎◌, inl, inr, ◌&&◌, ltb, leb, if◌then◌else◌, upd, arith,
  Bool-cases,
}
use ev.Strings.{Bytes, forward, backward, memmove}

-- The memory with a copy of the old range at `dst`.
unfoldable pub moved : ℕ → ℕ → ℕ → Bytes → Bytes
moved dst src n h i = if leb dst i && ltb i (dst + n) then h (i - dst + src) else h i

forward_lem :
    (n d s : ℕ) (h : Bytes) (i : ℕ) → (d ≤ s) ⊎ (s + n ≤ d) → forward n d s h i ≡ moved d s n h i
unfolding forward moved upd
forward_lem zero d s h i o = ground arith
forward_lem (suc n) d s h i o = ground (arith, forward_lem n (d + 1) (s + 1) (upd h d (h s)) i)

backward_lem :
    (n d s : ℕ) (h : Bytes) (i : ℕ) → s ≤ d → backward n (d + n) (s + n) h i ≡ moved d s n h i
unfolding backward moved upd
backward_lem zero d s h i o = ground arith
backward_lem (suc n) d s h i o = ground (arith, backward_lem n d s (upd h (d + n) (h (s + n))) i o)

-- `memmove` leaves at each address of the target range what the source range held before, overlap or
-- not, and changes nothing else.
pub memmove-moved :
    (dst src n : ℕ) (h : Bytes) (i : ℕ) → memmove dst src n h i ≡ moved dst src n h i
unfolding memmove
memmove-moved dst src n h i = elim (Bool-cases (ltb src dst && ltb dst (src + n))) [
  | inl e ↦ ground (arith, backward_lem n dst src h i)
  | inr e ↦ ground (arith, forward_lem n dst src h i)
]
