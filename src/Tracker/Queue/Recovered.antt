-- ===== src/Tracker/Queue/Recovered.antt =====
-- The list of recovered objects: an address of an object that was recorded gives its code again.
use ev.Prelude.{
  ℕ, ◌%◌, ◌^◌, ◌<◌, ◌≡◌, Bool, true, false, ◌&&◌, ◌||◌, List, [], ◌∷◌, none, some, ◌==◌, leb,
  if◌then◌else◌, arith,
}
use ev.Tracker.Queue.{
  RecoveredAddr, record_recovered_memobj, search_recovered, search_recovered_addr,
}

unfoldable pub has_room : List RecoveredAddr → Bool
has_room [] = false
has_room (x ∷ xs) = (x.start == 0 && x.end == 0) || has_room xs

search-record :
    (t : ℕ) (r : RecoveredAddr) (xs : List RecoveredAddr)
    → has_room xs ≡ true
    → search_recovered t xs ≡ none
    → search_recovered t (record_recovered_memobj r xs)
      ≡ (if leb r.start t && leb t r.end then some r.terminate_flag else none)
unfolding search_recovered record_recovered_memobj has_room
search-record t r [] room miss = absurd (ground arith)
search-record t r (x ∷ xs) room miss = ground (arith, search-record t r xs)

-- An address below 2^32 that no recorded object covers is found after the recording of an object
-- exactly when that object covers it, its end included, with the code recorded for it.
pub search_recovered_addr-record :
    (t : ℕ) (r : RecoveredAddr) (xs : List RecoveredAddr)
    → t < 2 ^ 32
    → has_room xs ≡ true
    → search_recovered_addr t xs ≡ none
    → search_recovered_addr t (record_recovered_memobj r xs)
      ≡ (if leb r.start t && leb t r.end then some r.terminate_flag else none)
unfolding search_recovered_addr
search_recovered_addr-record t r xs small room miss =
    let e : t % 2 ^ 32 ≡ t = omega arith in rw e (search-record t r xs room (rw e at miss))
