-- ===== src/RecoveryLock/History/Order.antt =====
-- A history keeps its flags at the front: no flag stands behind an empty place.
use ev.Prelude.{ℕ, ◌≡◌, ◌≢◌, refl, false, List, [], ◌∷◌, ◌++◌, arith, inl, inr, ◌⊎◌, All}
use ev.RecoveryLock.History.{add_flag, has_flag, clear_last, close_up, del_flag}

abbrev pub IsEmpty : List ℕ → Type 0
IsEmpty [] = Unit {0}
IsEmpty (x ∷ xs) = (x ≡ 0) × IsEmpty xs

abbrev pub IsCompact : List ℕ → Type 0
IsCompact [] = Unit {0}
IsCompact (x ∷ xs) = ((x ≡ 0) × IsEmpty xs) ⊎ ((x ≢ 0) × IsCompact xs)

-- Compact but for one hole.
abbrev Near : List ℕ → Type 0
Near [] = Unit {0}
Near (x ∷ xs) = ((x ≡ 0) × IsCompact xs) ⊎ ((x ≢ 0) × Near xs)

IsEmpty-IsCompact : (h : List ℕ) → IsEmpty h → IsCompact h
IsEmpty-IsCompact [] e = tt
IsEmpty-IsCompact (x ∷ xs) e = inl e

IsCompact-Near : (h : List ℕ) → IsCompact h → Near h
IsCompact-Near [] c = tt
IsCompact-Near (x ∷ xs) (inl p) = inl (p.0, IsEmpty-IsCompact xs p.1)
IsCompact-Near (x ∷ xs) (inr p) = inr (p.0, IsCompact-Near xs p.1)

-- Adding a flag keeps a history compact.
pub add_flag-IsCompact : (g : ℕ) (h : List ℕ) → g ≢ 0 → IsCompact h → IsCompact (add_flag g h)
unfolding add_flag
add_flag-IsCompact g [] ng c = tt
add_flag-IsCompact g (x ∷ xs) ng (inl p) = ground (arith, IsEmpty-IsCompact xs p.1)
add_flag-IsCompact g (x ∷ xs) ng (inr p) = ground (arith, add_flag-IsCompact g xs ng p.1)

has_flag-IsEmpty : (g : ℕ) (h : List ℕ) → IsEmpty h → g ≢ 0 → has_flag g h ≡ false
unfolding has_flag
has_flag-IsEmpty g [] e ng = refl
has_flag-IsEmpty g (x ∷ xs) e ng = ground (arith, has_flag-IsEmpty g xs e.1 ng)

clear_last-Near : (g : ℕ) (h : List ℕ) → g ≢ 0 → IsCompact h → Near (clear_last g h)
unfolding clear_last
clear_last-Near g [] ng c = tt
clear_last-Near g (x ∷ xs) ng (inl p) =
    ground (arith, has_flag-IsEmpty g xs p.1 ng, IsEmpty-IsCompact xs p.1)
clear_last-Near g (x ∷ xs) ng (inr p) =
    ground (arith, clear_last-Near g xs ng p.1, IsCompact-Near xs p.1)

close_up_hole : (h : List ℕ) → IsCompact h → IsCompact (close_up (0 ∷ h))
unfolding close_up
close_up_hole [] c = inl (refl, tt)
close_up_hole (y ∷ r) (inl p) = ground arith
close_up_hole (y ∷ r) (inr p) = ground (arith, close_up_hole r p.1)

close_up-IsCompact : (h : List ℕ) → Near h → IsCompact (close_up h)
unfolding close_up
close_up-IsCompact [] c = tt
close_up-IsCompact (x ∷ []) c = inl (refl, tt)
close_up-IsCompact (x ∷ y ∷ r) (inl p) = let e : x ≡ 0 = p.0 in rw e (close_up_hole (y ∷ r) p.1)
close_up-IsCompact (x ∷ y ∷ r) (inr p) = ground (arith, close_up-IsCompact (y ∷ r) p.1)

-- Deleting a flag keeps a history compact.
pub del_flag-IsCompact : (g : ℕ) (h : List ℕ) → g ≢ 0 → IsCompact h → IsCompact (del_flag g h)
unfolding del_flag
del_flag-IsCompact g h ng c = close_up-IsCompact (clear_last g h) (clear_last-Near g h ng c)

clear_last_absent : (g : ℕ) (h : List ℕ) → has_flag g h ≡ false → clear_last g h ≡ h
unfolding clear_last has_flag
clear_last_absent g [] e = refl
clear_last_absent g (x ∷ xs) e = ground arith

close_up_full : (h : List ℕ) (x : ℕ) → All (λ y. y ≢ 0) h → close_up (h ++ x ∷ []) ≡ h ++ 0 ∷ []
unfolding close_up
close_up_full [] x a = refl
close_up_full (y ∷ []) x a = ground arith
close_up_full (y ∷ z ∷ r) x a = ground (arith, close_up_full (z ∷ r) x a.1)

-- Deleting a flag that a full history does not hold loses the last flag of the history.
pub del_flag_full :
    (g : ℕ) (h : List ℕ) (x : ℕ)
    → All (λ y. y ≢ 0) h
    → has_flag g (h ++ x ∷ []) ≡ false
    → del_flag g (h ++ x ∷ []) ≡ h ++ 0 ∷ []
unfolding del_flag
del_flag_full g h x a e = rw (clear_last_absent g (h ++ x ∷ []) e) (close_up_full h x a)
