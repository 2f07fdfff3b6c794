-- ===== src/Rebuild.antt =====
-- kernel/recovery_handlers_MM.c: the Free-List is built again from its M-List. The M-List is the list of
-- its addresses, and `next` is the word with which a free page leads to the next one. The locks and the
-- spinlock of the new `struct kmem` are left out; the After-Treatment is in Policy/Memory.antt.
pub mod Chain
mod Tests
use ev.Prelude.{
  ℕ, zero, suc, ◌+◌, ◌≡◌, Bool, true, false, List, [], ◌∷◌, Option, none, some, ◌==◌, if◌then◌else◌,
  Result, ok, panic, fault, upd, not, ◌&&◌, ◌>>=◌,
}
use ev.Prelude.Int.{is_pos, is_neg}
use ev.Trans
use ev.Trans.{Target, check_inside_trans, exit_trans_run}
use ev.MList.View

-- `header_addr` is what the header node of the M-List holds as its address; `kmem` is the pointer to
-- the `struct kmem` in use, and `freelist` its field.
pub record State : Type 0 where
  pub next : ℕ → ℕ
  pub freelist : ℕ
  pub kmem : ℕ
  pub run_list : List ℕ
  pub kmm_list : List ℕ
  pub header_addr : ℕ

-- The address of the first and of the second node behind the header.
unfoldable pub first : ℕ → List ℕ → ℕ
first header_addr [] = header_addr
first header_addr (x ∷ xs) = x

unfoldable pub second : ℕ → List ℕ → ℕ
second header_addr [] = header_addr
second header_addr (x ∷ []) = header_addr
second header_addr (x ∷ y ∷ xs) = y

-- What the loop of `recovery_handler_run` leaves: the M-List, and the page `run` with its new `next`.
pub record Cut : Type 0 where
  pub list : List ℕ
  pub run : ℕ
  pub run_next : ℕ

-- `before` is the address of `bdnode`, `none` for the header.
unfoldable pub cut : ℕ → ℕ → Option ℕ → List ℕ → Option Cut
unfolding first second
cut header_addr broken before [] = none
cut header_addr broken before (x ∷ xs) =
    let rest = cut header_addr broken (some x) xs in
    if x == broken
    then some (elim before [
      | none ↦ record { list = xs; run = first header_addr xs; run_next = second header_addr xs }
      | some p ↦ record { list = xs; run = p; run_next = first header_addr xs }
    ])
    else elim rest [ none ↦ none | some c ↦ some (record c { list = x ∷ c.list }) ]

-- When no page is left, the write goes to the address in the header.
unfoldable pub recovery_handler_run : ℕ → State → Result State
unfolding cut upd
recovery_handler_run broken s = elim (cut s.header_addr broken none s.run_list) [
  | none ↦ ok (record s { freelist = 0 })
  | some c ↦ elim c.list [
    | [] ↦ fault
    | x ∷ xs ↦
        ok (record s { run_list = c.list; next = upd s.next c.run c.run_next; freelist = c.run })
  ]
]

-- `check_and_handle_trans_run` of kernel/trans.c on the words of the pages: the page that the process `pid`
-- was taking or giving back goes to the front of the Free-List.
unfoldable pub return_run : (me pid : ℕ) → Trans.State → State → Result (Trans.State × State)
unfolding upd
return_run me pid ts s = check_inside_trans Target.trans_run pid ts >>= λ ntrans.
    if is_pos ntrans && not (s.kmem == ts.log_run)
    then (exit_trans_run me ts >>= λ ts'. ok (
      ts',
      record s {
        next = upd s.next ts.log_run s.freelist;
        freelist = ts.log_run;
        run_list = View.register ts.log_run s.run_list;
      },
    ))
    else if is_neg ntrans
    then panic
    else ok (ts, s)

-- The first free page becomes the new `struct kmem`; `me` is the process that recovers.
unfoldable pub recovery_handler_kmem :
    (me pid broken : ℕ) → Trans.State → State → Result (Trans.State × State)
unfolding first second return_run
recovery_handler_kmem me pid broken ts s = elim s.run_list [
  | [] ↦ if s.header_addr == 0 then panic else fault
  | page ∷ pages ↦
      if page == 0
      then panic
      else let list = View.delete page s.run_list in
        return_run me pid ts (record s {
          run_list = list;
          freelist = second s.header_addr list;
          kmem = page;
          kmm_list = View.register page (View.delete broken s.kmm_list);
        })
]
