-- ===== src/Strings.antt =====
-- kernel/string.c. The memory gives the byte at an address; pointers do not wrap.
pub mod Move
pub mod Copy
mod Tests
use ev.Prelude.{
  ℕ, zero, suc, ◌+◌, ◌-◌, ◌%◌, ◌≡◌, Bool, true, false, not, ◌&&◌, ◌||◌, ◌==◌, ltb, leb,
  if◌then◌else◌, upd,
}
use ev.Prelude.Int.{ℤ, pos, negsuc}

abbrev pub Bytes : Type 0
Bytes = ℕ → ℕ

unfoldable pub memset : ℕ → ℕ → ℕ → Bytes → Bytes
unfolding upd
memset dst c zero h = h
memset dst c (suc n) h = memset (dst + 1) c n (upd h dst (c % 256))

-- `*s1 - *s2`.
unfoldable pub minus : ℕ → ℕ → ℤ
minus a b = if ltb a b then negsuc (b - a - 1) else pos (a - b)

unfoldable pub memcmp : ℕ → ℕ → ℕ → Bytes → ℤ
unfolding minus
memcmp s1 s2 zero h = pos 0
memcmp s1 s2 (suc n) h =
    let rest = memcmp (s1 + 1) (s2 + 1) n h in
    if not (h s1 == h s2) then minus (h s1) (h s2) else rest

-- `while(n-- > 0) *d++ = *s++`, and the same from behind.
unfoldable pub forward : ℕ → ℕ → ℕ → Bytes → Bytes
unfolding upd
forward zero d s h = h
forward (suc n) d s h = forward n (d + 1) (s + 1) (upd h d (h s))

unfoldable pub backward : ℕ → ℕ → ℕ → Bytes → Bytes
unfolding upd
backward zero d s h = h
backward (suc n) d s h = backward n (d - 1) (s - 1) (upd h (d - 1) (h (s - 1)))

unfoldable pub memmove : ℕ → ℕ → ℕ → Bytes → Bytes
unfolding forward backward
memmove dst src n h =
    if ltb src dst && ltb dst (src + n)
    then backward n (dst + n) (src + n) h
    else forward n dst src h

unfoldable pub strncmp : ℕ → ℕ → ℕ → Bytes → ℤ
unfolding minus
strncmp p q zero h = pos 0
strncmp p q (suc n) h =
    let rest = strncmp (p + 1) (q + 1) n h in
    if not (h p == 0) && h p == h q then rest else minus (h p) (h q)

-- The second loop of `strncpy`.
unfoldable pub clear : ℕ → ℕ → Bytes → Bytes
unfolding upd
clear s zero h = h
clear s (suc n) h = clear (s + 1) n (upd h s 0)

unfoldable pub strncpy : ℕ → ℕ → ℕ → Bytes → Bytes
unfolding upd clear
strncpy s t zero h = h
strncpy s t (suc n) h =
    let rest = strncpy (s + 1) (t + 1) n (upd h s (h t)) in
    if h t == 0 then clear (s + 1) n (upd h s 0) else rest

-- The loop of `safestrcpy` and the NUL behind it; `n` is what is left after `--n`.
unfoldable pub copy_string : ℕ → ℕ → ℕ → Bytes → Bytes
unfolding upd
copy_string s t zero h = upd h s 0
copy_string s t (suc n) h =
    let rest = copy_string (s + 1) (t + 1) n (upd h s (h t)) in
    if h t == 0 then upd (upd h s 0) (s + 1) 0 else rest

unfoldable pub safestrcpy : ℕ → ℕ → ℕ → Bytes → Bytes
unfolding copy_string
safestrcpy s t zero h = h
safestrcpy s t (suc n) h = copy_string s t n h
