-- ===== src/Rebuild/Chain.antt =====
-- kernel/recovery_handlers_MM.c: which pages the new Free-List leads through.
use ev.Prelude.{
  ℕ, ◌≡◌, ◌≢◌, refl, false, List, [], ◌∷◌, ◌++◌, Option, none, some, ◌==◌, ==_refl, ok, arith, upd,
  upd_self, upd_ne,
}
use ev.Trans
use ev.MList.View
use ev.MList.View.{contains}
use ev.Rebuild.{State, first, second, cut, recovery_handler_run}

-- From the page `p` on, the Free-List leads through these pages and ends there.
abbrev pub Leads : (ℕ → ℕ) → ℕ → List ℕ → Type 0
Leads next p [] = p ≡ 0
Leads next p (x ∷ xs) = (p ≡ x) × Leads next (next x) xs

-- A change of a page that is not among them.
Leads-upd :
    (next : ℕ → ℕ) (r v p : ℕ) (xs : List ℕ)
    → contains r xs ≡ false
    → Leads next p xs
    → Leads (upd next r v) p xs
unfolding contains
Leads-upd next r v p [] out l = l
Leads-upd next r v p (x ∷ xs) out (e, l) =
    (e, rw (upd_ne next r v x (ground arith)) (Leads-upd next r v (next x) xs (ground arith) l))

-- The page `r` in front of the others.
front-Leads :
    (next : ℕ → ℕ) (r v : ℕ) (xs : List ℕ)
    → contains r xs ≡ false
    → Leads next v xs
    → Leads (upd next r v) r (r ∷ xs)
front-Leads next r v xs out l = (refl, rw (upd_self next r v) (Leads-upd next r v v xs out l))

-- After an error in the first page of the Free-List, the list leads through all other pages of the
-- M-List and no others, given that at least two are left, that they were linked from the second of them
-- on, and that the first of them is there once. What the broken page held is not used.
pub recovery_handler_run-Leads :
    (broken x y : ℕ) (ys : List ℕ) (s : State)
    → s.run_list ≡ broken ∷ x ∷ y ∷ ys
    → contains x (y ∷ ys) ≡ false
    → Leads s.next y (y ∷ ys)
    → (t : State) × (recovery_handler_run broken s ≡ ok t)
      × (t.run_list ≡ x ∷ y ∷ ys)
      × Leads t.next t.freelist t.run_list
unfolding recovery_handler_run cut first second
recovery_handler_run-Leads broken x y ys s e out l = (
  record s { run_list = x ∷ y ∷ ys; next = upd s.next x y; freelist = x },
  rw (e, ==_refl broken, recovery_handler_run) refl,
  refl,
  front-Leads s.next x y (y ∷ ys) out l,
)

cut-middle :
    (h broken p z : ℕ) (before : Option ℕ) (pre zs : List ℕ)
    → contains broken pre ≡ false
    → (p == broken) ≡ false
    → cut h broken before (pre ++ p ∷ broken ∷ z ∷ zs)
      ≡ some (record { list = pre ++ p ∷ z ∷ zs; run = p; run_next = z })
unfolding cut first contains
cut-middle h broken p z before [] zs out ne = rw (ne, ==_refl broken) refl
cut-middle h broken p z before (x ∷ pre) zs out ne =
    let a : (x == broken) ≡ false = ground arith in
    rw (a, cut-middle h broken p z (some x) pre zs (ground arith) ne) refl

filled : (pre : List ℕ) (p z : ℕ) (zs : List ℕ) → pre ++ p ∷ z ∷ zs ≢ []
filled [] p z zs e = ground arith
filled (x ∷ pre) p z zs e = ground arith

run-middle :
    (broken p z : ℕ) (pre zs l : List ℕ) (s : State)
    → cut s.header_addr broken none s.run_list ≡ some (record { list = l; run = p; run_next = z })
    → l ≢ []
    → recovery_handler_run broken s
      ≡ ok (record s { run_list = l; next = upd s.next p z; freelist = p })
unfolding recovery_handler_run
run-middle broken p z pre zs [] s e ne = absurd (ne refl)
run-middle broken p z pre zs (x ∷ xs) s e ne = rw (e, recovery_handler_run) refl

-- After an error in a page further back, the Free-List starts with the page in front of the broken one
-- and leads through those behind it: the pages `pre` stay in the M-List and are lost for `kalloc`.
pub recovery_handler_run-middle :
    (broken p z : ℕ) (pre zs : List ℕ) (s : State)
    → s.run_list ≡ pre ++ p ∷ broken ∷ z ∷ zs
    → contains broken pre ≡ false
    → (p == broken) ≡ false
    → contains p (z ∷ zs) ≡ false
    → Leads s.next z (z ∷ zs)
    → (t : State) × (recovery_handler_run broken s ≡ ok t)
      × (t.run_list ≡ pre ++ p ∷ z ∷ zs)
      × Leads t.next t.freelist (p ∷ z ∷ zs)
recovery_handler_run-middle broken p z pre zs s e out ne once l = (
  record s { run_list = pre ++ p ∷ z ∷ zs; next = upd s.next p z; freelist = p },
  run-middle broken p z pre zs (pre ++ p ∷ z ∷ zs) s
      (rw e (cut-middle s.header_addr broken p z none pre zs out ne)) (filled pre p z zs),
  refl,
  front-Leads s.next p z (z ∷ zs) once l,
)
