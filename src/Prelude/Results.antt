-- ===== src/Prelude/Results.antt =====
-- How a kernel function ends: with a value, in `panic`, in a fault (an access that C leaves
-- undefined), or asleep, when the process gives up the processor before the function returns.
use mathlib.Core.Path.{◌≡◌, refl}

pub data Result {u} (S : Type u) : Type u where
  panic fault asleep : Result S
  ok : S → Result S

-- What ends before a value goes through.
abbrev pub ◌>>=◌ {u v} :
    {S : Type u} {T : Type v} (first : Result S) (rest : S → Result T) → Result T
panic >>= rest = panic
fault >>= rest = fault
asleep >>= rest = asleep
ok s >>= rest = rest s

infixl 5 ◌>>=◌
pub >>=-eq-ok {u v} :
    {S : Type u} {T : Type v} (first : Result S) (rest : S → Result T) {t : T}
    (e : first >>= rest ≡ ok t)
    → (s : S) × (first ≡ ok s) × (rest s ≡ ok t)
>>=-eq-ok panic rest e = cc
>>=-eq-ok fault rest e = cc
>>=-eq-ok asleep rest e = cc
>>=-eq-ok (ok s) rest e = (s, refl, e)
