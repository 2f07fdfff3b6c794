-- ===== src/RecoveryLock/History/Counts.antt =====
-- How often a flag stands in a history, and what adding and deleting do to it.
use ev.Prelude.{
  ℕ, suc, ◌+◌, ◌≡◌, ◌≢◌, refl, true, false, List, [], ◌∷◌, some, ◌==◌, if◌then◌else◌, arith,
}
use ev.RecoveryLock.History.{
  RcsInfo, history, put_history, add_flag, has_flag, clear_last, close_up, del_flag,
}

unfoldable pub count : ℕ → List ℕ → ℕ
count f [] = 0
count f (x ∷ xs) = if x == f then suc (count f xs) else count f xs

-- Over all processes.
unfoldable pub total : ℕ → List RcsInfo → ℕ
total f [] = 0
total f (r ∷ rs) = count f r.history_idx + total f rs

pub count-add_flag :
    (f g : ℕ) (h : List ℕ)
    → f ≢ 0
    → g ≢ 0
    → has_flag 0 h ≡ true
    → count f (add_flag g h) ≡ (if g == f then suc (count f h) else count f h)
unfolding count add_flag has_flag
count-add_flag f g [] nf ng room = absurd (ground arith)
count-add_flag f g (x ∷ xs) nf ng room = ground (arith, count-add_flag f g xs)

count-has_flag : (f : ℕ) (h : List ℕ) → has_flag f h ≡ false → count f h ≡ 0
unfolding count has_flag
count-has_flag f [] e = refl
count-has_flag f (x ∷ xs) e = ground (arith, count-has_flag f xs)

count-clear_last :
    (f g : ℕ) (h : List ℕ)
    → f ≢ 0
    → has_flag g h ≡ true
    → (if g == f then suc (count f (clear_last g h)) else count f (clear_last g h)) ≡ count f h
unfolding count clear_last has_flag
count-clear_last f g [] nf e = absurd (ground arith)
count-clear_last f g (x ∷ xs) nf e = ground (arith, count-clear_last f g xs, count-has_flag f xs)

has_flag-clear_last :
    (g : ℕ) (h : List ℕ) → has_flag g h ≡ true → has_flag 0 (clear_last g h) ≡ true
unfolding clear_last has_flag
has_flag-clear_last g [] e = absurd (ground arith)
has_flag-clear_last g (x ∷ xs) e = ground (arith, has_flag-clear_last g xs)

-- Closing up a history that has an empty place loses nothing.
count-close_up :
    (f : ℕ) (h : List ℕ) → f ≢ 0 → has_flag 0 h ≡ true → count f (close_up h) ≡ count f h
unfolding count close_up has_flag
count-close_up f [] nf e = refl
count-close_up f (x ∷ []) nf e = ground arith
count-close_up f (x ∷ y ∷ r) nf e =
    ground (arith, count-close_up f ((if x == 0 then 0 else y) ∷ r) nf)

-- Deleting a flag that a history holds takes one occurrence of it, and none of another flag.
pub count-del_flag :
    (f g : ℕ) (h : List ℕ)
    → f ≢ 0
    → has_flag g h ≡ true
    → (if g == f then suc (count f (del_flag g h)) else count f (del_flag g h)) ≡ count f h
unfolding del_flag
count-del_flag f g h nf e = ground (
  arith,
  count-close_up f (clear_last g h) nf,
  has_flag-clear_last g h e,
  count-clear_last f g h nf e,
)

-- A new history of a process changes the total by the change of its own count.
pub total-put_history :
    (f pid : ℕ) (h h' : List ℕ) (rs : List RcsInfo)
    → history pid rs ≡ some h
    → total f (put_history pid h' rs) + count f h ≡ total f rs + count f h'
unfolding total history put_history
total-put_history f pid h h' [] e = absurd (ground arith)
total-put_history f pid h h' (r ∷ rs) e = ground (arith, total-put_history f pid h h' rs)

pub history-put_history :
    (pid q : ℕ) (h h' : List ℕ) (rs : List RcsInfo)
    → history pid rs ≡ some h
    → history q (put_history pid h' rs) ≡ (if q == pid then some h' else history q rs)
unfolding history put_history
history-put_history pid q h h' [] e = absurd (ground arith)
history-put_history pid q h h' (r ∷ rs) e = ground (arith, history-put_history pid q h h' rs)
