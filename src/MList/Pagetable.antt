-- ===== src/MList/Pagetable.antt =====
-- kernel/mlist_pagetable.c, and `search_ptb_mlist` of kernel/mlist_tracker.c: the M-List of page tables,
-- a ring of pages of words. The last word of a page is the address of the next page, and that of the
-- last page the address of the first, `mlist.ptb_list`.
pub mod Words
use ev.Prelude.{
  ℕ, zero, suc, ◌+◌, ◌*◌, ◌-◌, ◌/◌, ◌%◌, ◌≡◌, ◌≢◌, refl, ap, ◌∙◌, Bool, true, false, ◌&&◌, ◌||◌,
  List, [], ◌∷◌, ◌++◌, Option, none, some, ◌==◌, leb, ltb, if◌then◌else◌, replicate, arith,
  Bool-cases, inl, inr,
}
use ev.Params.{pgsize}
use ev.MList.{fresh}
use Prim.Native.Nat.{bit_or}

-- PID2MLNODE and the `|` of `register_ptb_mlist`.
unfoldable pub pack : ℕ → ℕ → ℕ → ℕ
pack pid addr level = bit_or (bit_or addr (pid * 4)) level

-- MLNODE2PA, MLNODE2PID and MLNODE2LEVEL, whose masks keep all bits from 12, bits 2 to 11, and bits
-- 0 and 1.
unfoldable pub node_pa : ℕ → ℕ
node_pa e = e / 4096 * 4096

unfoldable pub node_pid : ℕ → ℕ
node_pid e = e % 4096 / 4

unfoldable pub node_level : ℕ → ℕ
node_level e = e % 4

-- `words` are the first 511 words.
pub record Page : Type 0 where
  pub base : ℕ
  pub words : List ℕ

unfoldable pub is_free : ℕ → Bool
is_free e = e == 0 || e == fresh

-- The first word that passes the test is replaced.
unfoldable pub replace_word : (ℕ → Bool) → ℕ → List ℕ → Option (List ℕ)
replace_word test v [] = none
replace_word test v (e ∷ es) =
    if test e
    then some (v ∷ es)
    else elim (replace_word test v es) [ none ↦ none | some r ↦ some (e ∷ r) ]

unfoldable pub replace_pages : (ℕ → Bool) → ℕ → List Page → Option (List Page)
unfolding replace_word
replace_pages test v [] = none
replace_pages test v (p ∷ ps) = elim (replace_word test v p.words) [
  | some ws ↦ some (record p { words = ws } ∷ ps)
  | none ↦ elim (replace_pages test v ps) [ none ↦ none | some qs ↦ some (p ∷ qs) ]
]

-- `page` is what `kalloc` gives for a new page, 0 when there is none.
unfoldable pub register_ptb_mlist : (page pid addr level : ℕ) → List Page → List Page
unfolding pack is_free replace_pages
register_ptb_mlist page pid addr level ps = elim (replace_pages is_free (pack pid addr level) ps) [
  | some qs ↦ qs
  | none ↦
      if page == 0
      then ps
      else ps ++ record { base = page; words = pack pid addr level ∷ replicate 510 fresh } ∷ []
]

unfoldable pub delete_ptb_mlist : ℕ → List Page → List Page
unfolding node_pa replace_pages
delete_ptb_mlist addr ps = elim (replace_pages (λ e. node_pa e == addr) 0 ps) [
  | none ↦ ps
  | some qs ↦ qs
]

unfoldable pub clear_words : ℕ → List ℕ → List ℕ
unfolding node_pid
clear_words pid [] = []
clear_words pid (e ∷ es) = (if node_pid e == pid then 0 else e) ∷ clear_words pid es

-- The pages behind the first: the loop goes on with their second word.
unfoldable pub clear_rest : ℕ → List Page → List Page
unfolding clear_words
clear_rest pid [] = []
clear_rest pid (p ∷ ps) = elim p.words [
  | [] ↦ p ∷ clear_rest pid ps
  | e ∷ es ↦ record p { words = e ∷ clear_words pid es } ∷ clear_rest pid ps
]

-- `none` for the pid 0, which the link of the first page matches: the loop overwrites it.
unfoldable pub delete_ptb_mlist_all : ℕ → List Page → Option (List Page)
unfolding clear_words clear_rest
delete_ptb_mlist_all pid [] = none
delete_ptb_mlist_all pid (p ∷ ps) =
    if pid == 0
    then none
    else some (record p { words = clear_words pid p.words } ∷ clear_rest pid ps)

unfoldable pub covers : ℕ → ℕ → Bool
unfolding node_pa
covers target e = leb (node_pa e) target && ltb target (node_pa e + pgsize)

unfoldable pub search_words : ℕ → List ℕ → Option ℕ
unfolding covers
search_words target [] = none
search_words target (e ∷ es) = if covers target e then some e else search_words target es

abbrev pub tail : List ℕ → List ℕ
tail [] = []
tail (x ∷ xs) = xs

-- The words that the loop looks at: the links, too, and not the first word of a later page.
unfoldable pub seen : (first : ℕ) → List ℕ → List Page → List ℕ
seen first ws [] = ws ++ first ∷ []
seen first ws (q ∷ ps) = ws ++ q.base ∷ seen first (tail q.words) ps

-- `search_ptb_mlist`; `none` is 0.
unfoldable pub search_ptb_mlist : ℕ → List Page → Option ℕ
unfolding search_words seen
search_ptb_mlist target [] = none
search_ptb_mlist target (p ∷ ps) = search_words target (seen p.base p.words ps)

-- The words of a process.
unfoldable pub held_words : ℕ → List ℕ → List ℕ
held_words pid [] = []
held_words pid (e ∷ es) = if node_pid e == pid then e ∷ held_words pid es else held_words pid es

unfoldable pub held : ℕ → List Page → List ℕ
held pid [] = []
held pid (p ∷ ps) = held_words pid p.words ++ held pid ps

-- The words of a process that stand first on their page.
unfoldable pub heads : ℕ → List Page → List ℕ
heads pid [] = []
heads pid (p ∷ ps) = elim p.words [
  | [] ↦ heads pid ps
  | e ∷ es ↦ if node_pid e == pid then e ∷ heads pid ps else heads pid ps
]

held-clear_words : (pid : ℕ) (es : List ℕ) → pid ≢ 0 → held_words pid (clear_words pid es) ≡ []
unfolding held_words clear_words node_pid
held-clear_words pid [] nz = refl
held-clear_words pid (e ∷ es) nz = ground (arith, held-clear_words pid es nz)

held-clear_page :
    (pid : ℕ) (p : Page) (ws : List ℕ) (ps : List Page)
    → pid ≢ 0
    → p.words ≡ ws
    → held pid (clear_rest pid ps) ≡ heads pid ps
    → held pid (clear_rest pid (p ∷ ps)) ≡ heads pid (p ∷ ps)
unfolding held heads clear_rest held_words
held-clear_page pid p [] ps nz e ih = ground arith
held-clear_page pid p (w ∷ ws) ps nz e ih = ground (arith, held-clear_words pid ws nz)

held-clear_rest : (pid : ℕ) (ps : List Page) → pid ≢ 0 → held pid (clear_rest pid ps) ≡ heads pid ps
unfolding held heads clear_rest
held-clear_rest pid [] nz = refl
held-clear_rest pid (p ∷ ps) nz =
    held-clear_page pid p p.words ps nz refl (held-clear_rest pid ps nz)

-- For a process other than 0, `delete_ptb_mlist_all` leaves exactly those of its words that stand
-- first on a page behind the first page.
pub held-delete_ptb_mlist_all :
    (pid : ℕ) (p : Page) (ps qs : List Page)
    → pid ≢ 0
    → delete_ptb_mlist_all pid (p ∷ ps) ≡ some qs
    → held pid qs ≡ heads pid ps
unfolding delete_ptb_mlist_all held
held-delete_ptb_mlist_all pid p ps qs nz h =
    ground (arith, held-clear_rest pid ps nz, held-clear_words pid p.words nz)
