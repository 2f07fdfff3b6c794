-- ===== src/MList/View.antt =====
-- What the M-List of one kind of object promises: the registered addresses, newest first.
use ev.Prelude.{
  ℕ, ◌+◌, Bool, false, ◌&&◌, ◌||◌, List, [], ◌∷◌, Option, none, some, ltb, leb, ◌==◌, if◌then◌else◌,
}

unfoldable pub contains : ℕ → List ℕ → Bool
contains a [] = false
contains a (x ∷ xs) = x == a || contains a xs

-- An address that is there already is not entered again.
unfoldable pub register : ℕ → List ℕ → List ℕ
register a xs = if contains a xs then xs else a ∷ xs

-- The first entry goes; without one nothing changes.
unfoldable pub delete : ℕ → List ℕ → List ℕ
delete a [] = []
delete a (x ∷ xs) = if x == a then xs else x ∷ delete a xs

-- The first object that covers the target.
unfoldable pub search_mlist : ℕ → ℕ → List ℕ → Option ℕ
search_mlist target size [] = none
search_mlist target size (x ∷ xs) =
    if leb x target && ltb target (x + size) then some x else search_mlist target size xs
