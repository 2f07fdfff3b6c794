-- ===== src/Tracker/Rescue.antt =====
-- kernel/mlist_tracker.c: whether a process that was interrupted inside an old section may be killed
-- instead of stopping the system.
use ev.Prelude.{
  ℕ, ◌≡◌, Bool, true, false, not, ◌&&◌, ◌||◌, List, [], ◌∷◌, if◌then◌else◌, arith, Bool-cases, inl,
  inr,
}
use ev.Policy.{Fn, Layout, inside, any_of}

-- The functions at which the scan gives up at once.
unfoldable pub is_delicate : Layout → ℕ → Bool
unfolding inside
is_delicate l pc =
    inside l Fn.brelse pc
    || inside l Fn.freeproc pc
    || inside l Fn.kvminit pc
    || inside l Fn.procinit pc
    || inside l Fn.sys_open pc
    || inside l Fn.uvmunmap pc

-- The loop with its two flags.
unfoldable pub rescue_from : Layout → Bool → Bool → List ℕ → Bool
unfolding is_delicate inside
rescue_from l is_chdir is_end_op [] = true
rescue_from l is_chdir is_end_op (pc ∷ pcs) =
    let c = is_chdir || (not (inside l Fn.end_op pc) && inside l Fn.sys_chdir pc) in
    let e = is_end_op || inside l Fn.end_op pc in
    let rest = rescue_from l c e pcs in
    if c && e then false else if is_delicate l pc then false else rest

-- The return addresses are those that `getcallerpcs_bottom` or `getcallerpcs_top` gives.
unfoldable pub scan_function_call_history : Layout → List ℕ → Bool
unfolding rescue_from
scan_function_call_history l pcs = rescue_from l false false pcs

-- A stack with one of the functions at which the scan gives up is never rescued.
rescue_from-delicate :
    (l : Layout) (c e : Bool) (pcs : List ℕ)
    → any_of (is_delicate l) pcs ≡ true
    → rescue_from l c e pcs ≡ false
unfolding rescue_from any_of
rescue_from-delicate l c e [] h = absurd (ground arith)
rescue_from-delicate l c e (pc ∷ pcs) h = elim (Bool-cases (is_delicate l pc)) [
  | inl d ↦ ground arith
  | inr n ↦ ground (
    arith,
    rescue_from-delicate l (c || (not (inside l Fn.end_op pc) && inside l Fn.sys_chdir pc))
        (e || inside l Fn.end_op pc) pcs,
  )
]

-- The scan refuses every stack with one of the functions at which it gives up.
pub scan_function_call_history-delicate :
    (l : Layout) (pcs : List ℕ)
    → any_of (is_delicate l) pcs ≡ true
    → scan_function_call_history l pcs ≡ false
unfolding scan_function_call_history
scan_function_call_history-delicate l pcs h = rescue_from-delicate l false false pcs h
