-- ===== src/Rebuild/Tests.antt =====
-- kernel/recovery_handlers_MM.c on a Free-List of four pages.
use ev.Prelude.{ℕ, ◌≡◌, refl, false, [], ◌∷◌, ◌==◌, if◌then◌else◌, ok, upd}
use ev.Prelude.Int.{pos, negsuc}
use ev.Params.{LogHeader}
use ev.Trans
use ev.MList.View.{contains}
use ev.Rebuild.{State, cut, first, second, recovery_handler_run}
use ev.Rebuild.Chain.{Leads, recovery_handler_run-Leads}

abbrev linked : ℕ → ℕ
linked p = if p == 40 then 30 else if p == 30 then 20 else if p == 20 then 10 else 0

abbrev pages : State
pages = record {
  next = linked;
  freelist = 40;
  kmem = 7;
  run_list = 40 ∷ 30 ∷ 20 ∷ 10 ∷ [];
  kmm_list = 7 ∷ [];
  header_addr = 0x505050505050505;
}

apart : contains 30 (20 ∷ 10 ∷ []) ≡ false
unfolding contains
apart = refl

recovery_handler_run-Leads_example :
    (t : State) × (recovery_handler_run 40 pages ≡ ok t)
    × (t.run_list ≡ 30 ∷ 20 ∷ 10 ∷ [])
    × Leads t.next t.freelist t.run_list
recovery_handler_run-Leads_example =
    recovery_handler_run-Leads 40 30 20 (10 ∷ []) pages refl apart (refl, (refl, refl))

not_first : contains 20 (40 ∷ []) ≡ false
unfolding contains
not_first = refl

once : contains 30 (10 ∷ []) ≡ false
unfolding contains
once = refl

-- Process 3 was giving the page 50 back.
abbrev blank : LogHeader
blank = record { n = 0; block = [] }

abbrev giving_back : Trans.State
giving_back = record {
  infos = record { pid = 3; pagetable_ntrans = pos 0; log_ntrans = pos 0; run_ntrans = pos 1 } ∷ [];
  nextpid = 4;
  log_outstanding = negsuc 0;
  log_logheader = blank;
  log_run = 50;
  lh = blank;
  outstanding = pos 0;
  dup_lhdr = blank;
  dup_outstanding = pos 0;
  kmem = 7;
  freelist = [];
  run_list = [];
}

-- With one page left, the new end of the list is the address in the header.
abbrev two : State
two = record pages { run_list = 40 ∷ 30 ∷ [] }

end_lost : (t : State) × (recovery_handler_run 40 two ≡ ok t) × (t.next 30 ≡ 0x505050505050505)
unfolding recovery_handler_run cut first second upd
end_lost = (
  record two { run_list = 30 ∷ []; next = upd linked 30 0x505050505050505; freelist = 30 },
  refl,
  refl,
)

-- A page that is not in the M-List costs the whole Free-List.
all_lost : recovery_handler_run 50 pages ≡ ok (record pages { freelist = 0 })
unfolding recovery_handler_run cut
all_lost = refl
