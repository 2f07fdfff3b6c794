-- ===== src/Kalloc/Free.antt =====
-- kernel/kalloc.c: the pages of the Free-List and those of its M-List.
use ev.Prelude.{
  ℕ, ◌<◌, ◌≡◌, refl, ◌⊎◌, Bool, true, false, not, ◌&&◌, List, [], ◌∷◌, ◌==◌, if◌then◌else◌, ok,
  ◌>>=◌, >>=-eq-ok, arith, Bool-cases, inl, inr,
}
use ev.RecoveryLock.Index.{rl_flag_kmem}
use ev.RecoveryLock.Locks.{Caller, enter_recovery_critical_section, exit_recovery_critical_section}
use ev.Trans
use ev.Trans.{index, info_at, enter_trans_run, exit_trans_run}
use ev.MList.View
use ev.MList.View.{contains}
use ev.Kalloc.{State, is_page, put_page, take_page, kfree, kalloc}

abbrev pub Distinct : List ℕ → Type 0
Distinct [] = Unit
Distinct (x ∷ xs) = (contains x xs ≡ false) × Distinct xs

abbrev pub Pages : ℕ → List ℕ → Type 0
Pages kernel_end [] = Unit
Pages kernel_end (x ∷ xs) = (is_page kernel_end x ≡ true) × Pages kernel_end xs

-- The M-List mirrors the Free-List, which holds pages of the kernel's memory, each once.
pub record Mirrors (has_list : Bool) (kernel_end : ℕ) (freelist run_list : List ℕ) : Type 0 where
  pub listed : has_list ≡ true
  pub mirror : run_list ≡ freelist
  pub distinct : Distinct freelist
  pub pages : Pages kernel_end freelist
  pub above : 0 < kernel_end

abbrev pub IsFree : State → Type 0
IsFree s = Mirrors s.has_list s.kernel_end s.trans.freelist s.trans.run_list

enter_trans_run-lists :
    (me pa : ℕ) (s t : Trans.State)
    → enter_trans_run me pa s ≡ ok t
    → (t.freelist ≡ s.freelist) × (t.run_list ≡ s.run_list)
unfolding enter_trans_run
enter_trans_run-lists me pa s t h =
    let ((i, x), e, k) = >>=-eq-ok (info_at (index me s) s) _ h in ground arith

exit_trans_run-lists :
    (me : ℕ) (s t : Trans.State)
    → exit_trans_run me s ≡ ok t
    → (t.freelist ≡ s.freelist) × (t.run_list ≡ s.run_list)
unfolding exit_trans_run
exit_trans_run-lists me s t h =
    let ((i, x), e, k) = >>=-eq-ok (info_at (index me s) s) _ h in ground arith

-- What `kfree` leaves in the two lists.
kfree-lists :
    (c : Caller) (me pa : ℕ) (s t : State)
    → kfree c me pa s ≡ ok t
    → (is_page s.kernel_end pa ≡ true)
      × (t.has_list ≡ s.has_list)
      × (t.kernel_end ≡ s.kernel_end)
      × (t.trans.freelist ≡ pa ∷ s.trans.freelist)
      × (t.trans.run_list
          ≡ (if s.has_list then View.register pa s.trans.run_list else s.trans.run_list))
unfolding kfree put_page
kfree-lists c me pa s t h = elim (Bool-cases (is_page s.kernel_end pa)) [
  | inr e ↦ absurd (ground arith)
  | inl e ↦
      let (l, f, h1) =
        >>=-eq-ok (enter_recovery_critical_section c rl_flag_kmem 0 s.locks)
          (λ l. enter_trans_run me pa s.trans >>= λ t.
            exit_trans_run me (put_page s.has_list pa t) >>= λ u.
            exit_recovery_critical_section c rl_flag_kmem 0 l >>= λ l'.
            ok (record s { locks = l'; trans = u }))
          {t = t} (ground arith) in
      let (t1, g, h2) = >>=-eq-ok (enter_trans_run me pa s.trans) _ h1 in
      let (u, k, h3) = >>=-eq-ok (exit_trans_run me (put_page s.has_list pa t1)) _ h2 in
      let (l', m, h4) = >>=-eq-ok (exit_recovery_critical_section c rl_flag_kmem 0 l) _ h3 in
      ground (
        arith,
        enter_trans_run-lists me pa s.trans t1 g,
        exit_trans_run-lists me (put_page s.has_list pa t1) u k,
      )
]

delete-head : (r : ℕ) (rs : List ℕ) → View.delete r (r ∷ rs) ≡ rs
unfolding View.delete
delete-head r rs = ground arith

put-Mirrors :
    (has : Bool) (kernel_end pa : ℕ) (xs ys : List ℕ)
    → Mirrors has kernel_end xs ys
    → contains pa xs ≡ false
    → is_page kernel_end pa ≡ true
    → Mirrors has kernel_end (pa ∷ xs) (if has then View.register pa ys else ys)
unfolding View.register
put-Mirrors has kernel_end pa xs ys w out page = record {
  listed = w.listed;
  mirror = ground (arith, w.listed, w.mirror);
  distinct = (out, w.distinct);
  pages = (page, w.pages);
  above = w.above;
}

-- Freeing a page that is not free keeps the two lists equal, without repetition, and made of pages
-- of the kernel's memory.
pub kfree-IsFree :
    (c : Caller) (me pa : ℕ) (s t : State)
    → IsFree s
    → contains pa s.trans.freelist ≡ false
    → kfree c me pa s ≡ ok t
    → IsFree t
kfree-IsFree c me pa s t w out h =
    let (page, has, end_, free, run) = kfree-lists c me pa s t h in
    rw (has, end_, free, run)
      (put-Mirrors s.has_list s.kernel_end pa s.trans.freelist s.trans.run_list w out page)

-- What `kalloc` takes from the two lists.
kalloc-lists :
    (c : Caller) (s t : State) (r : ℕ)
    → kalloc c s ≡ ok (r, t)
    → ((r, t.trans) ≡ take_page s.has_list s.trans)
      × (t.has_list ≡ s.has_list)
      × (t.kernel_end ≡ s.kernel_end)
unfolding kalloc
kalloc-lists c s t r h =
    let (l, f, h1) = >>=-eq-ok (enter_recovery_critical_section c rl_flag_kmem 0 s.locks) _ h in
    let (l', m, h2) = >>=-eq-ok (exit_recovery_critical_section c rl_flag_kmem 0 l) _ h1 in
    ground arith

page_nonzero : (kernel_end x : ℕ) → is_page kernel_end x ≡ true → 0 < kernel_end → (x == 0) ≡ false
unfolding is_page
page_nonzero kernel_end x p lt = ground arith

abbrev pub Taken : ℕ → ℕ → List ℕ → List ℕ → Type 0
Taken kernel_end r before after =
    ((r ≡ 0) × (before ≡ []) × (after ≡ []))
    ⊎ ((before ≡ r ∷ after) × (contains r after ≡ false) × (is_page kernel_end r ≡ true))

take-Mirrors :
    (has : Bool) (kernel_end : ℕ) (s : Trans.State) (xs : List ℕ)
    → s.freelist ≡ xs
    → Mirrors has kernel_end s.freelist s.run_list
    → let (r, t) = take_page has s in
      Mirrors has kernel_end t.freelist t.run_list × Taken kernel_end r s.freelist t.freelist
unfolding take_page
take-Mirrors has kernel_end s [] e w = rw e (rw e at w, inl (refl, refl, refl))
take-Mirrors has kernel_end s (x ∷ xs) e w =
    let v : Mirrors has kernel_end (x ∷ xs) s.run_list = rw e at w in
    let page : is_page kernel_end x ≡ true = v.pages.0 in
    let nz : (x == 0) ≡ false = page_nonzero kernel_end x page v.above in
    let run : (if has && not (x == 0) then View.delete x s.run_list else s.run_list) ≡ xs =
      rw (v.listed, nz, v.mirror) (delete-head x xs) in
    rw e (
      record {
        listed = v.listed;
        mirror = run;
        distinct = v.distinct.1;
        pages = v.pages.1;
        above = v.above;
      },
      inr (refl, v.distinct.0, page),
    )

-- An allocation keeps the two lists as they have to be. The page is one of the kernel's memory that
-- was free and is free no longer; 0 is given only when no page is free.
pub kalloc-IsFree :
    (c : Caller) (s t : State) (r : ℕ)
    → IsFree s
    → kalloc c s ≡ ok (r, t)
    → IsFree t × Taken t.kernel_end r s.trans.freelist t.trans.freelist
kalloc-IsFree c s t r w h =
    let (e, has, end_) = kalloc-lists c s t r h in
    let both = take-Mirrors s.has_list s.kernel_end s.trans s.trans.freelist refl w in
    rw (has, end_) (rw (← e) at both)
