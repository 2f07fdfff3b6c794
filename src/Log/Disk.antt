-- ===== src/Log/Disk.antt =====
-- kernel/log.c: what the loops of `write_log` and `install_trans` do to the cache, to the disk, and to
-- the disk after each of their writes.
use ev.Prelude.{
  upd, ℕ, zero, suc, ◌+◌, ◌≤◌, ◌≡◌, refl, Bool, true, false, ◌&&◌, ◌||◌, List, [], ◌∷◌, some, ◌==◌,
  if◌then◌else◌, ltb, leb, get_elem?, length, All, arith, get_elem?-lt-length,
}
use ev.Bcache.{down}
use ev.Log.{Disk, State, bwrite, copy, write_log_from, install_from}

unfoldable pub mem : ℕ → List ℕ → Bool
mem b [] = false
mem b (x ∷ xs) = (b == x) || mem b xs

-- Outside the header and the `size` log blocks behind it.
unfoldable pub is_home : (start size : ℕ) → ℕ → Bool
is_home start size b = ltb b start || ltb (start + size) b

-- The disk with the homes written.
abbrev pub after : Disk → List ℕ → Disk → Disk
after new bs d b = if mem b bs then new b else d b

abbrev installed : ℕ → ℕ → State → State
installed tail b s =
    let t = copy b (s.start + tail + 1) s in
    record t { refcnt = upd t.refcnt b (down (t.refcnt b)) }

-- The log blocks from `tail` on hold what `new` gives for their homes.
abbrev pub Holds : Disk → ℕ → List ℕ → ℕ → Disk → Type 0
Holds new tail bs start d = (i b : ℕ) → get_elem? bs i ≡ some b → d (start + tail + 1 + i) ≡ new b

abbrev pub Homes : ℕ → ℕ → List ℕ → Type 0
Homes start size bs = (b : ℕ) → mem b bs ≡ true → is_home start size b ≡ true

Homes-tail : (start size x : ℕ) (bs : List ℕ) → Homes start size (x ∷ bs) → Homes start size bs
unfolding mem
Homes-tail start size x bs homes b h = homes b (ground arith)

Holds-installed :
    (new : Disk) (tail size x : ℕ) (bs : List ℕ) (s : State)
    → Holds new tail (x ∷ bs) s.start s.cache
    → is_home s.start size x ≡ true
    → tail + suc (length bs) ≤ size
    → Holds new (suc tail) bs s.start (installed tail x s).cache
unfolding copy bwrite upd is_home
Holds-installed new tail size x bs s logs home fits i b e =
    let lt = get_elem?-lt-length bs i b e in
    let h = logs (suc i) b e in
    let same : s.start + tail + 1 + suc i ≡ s.start + suc tail + 1 + i = omega arith in
    let off : (s.start + suc tail + 1 + i == x) ≡ false = ground arith in
    ground (arith, rw same at h)

-- `install_trans` writes to every home the content of its log block, in the cache and on the disk.
pub install_from-get :
    (new : Disk) (tail size : ℕ) (bs : List ℕ) (s : State)
    → Holds new tail bs s.start s.cache
    → Homes s.start size bs
    → tail + length bs ≤ size
    → (b : ℕ) → (install_from tail bs s).disk b ≡ after new bs s.disk b
unfolding install_from copy bwrite upd mem
install_from-get new tail size [] s logs homes fits b = refl
install_from-get new tail size (x ∷ bs) s logs homes fits b =
    let first : s.cache (s.start + tail + 1) ≡ new x = ground (arith, logs 0 x refl) in
    ground (
      arith,
      first,
      install_from-get new (suc tail) size bs (installed tail x s)
          (Holds-installed new tail size x bs s logs (homes x (ground arith)) fits)
          (Homes-tail s.start size x bs homes) (omega arith) b,
    )

-- Each disk that `install_trans` passes through agrees with the first one off the homes.
pub All-install_from :
    (P : Disk → Type 0) (tail : ℕ) (bs : List ℕ) (s : State)
    → All P s.disks
    → ((d : Disk) → ((b : ℕ) → mem b bs ≡ false → d b ≡ s.disk b) → P d)
    → All P (install_from tail bs s).disks
unfolding install_from copy bwrite upd mem
All-install_from P tail [] s a keep = a
All-install_from P tail (x ∷ bs) s a keep =
    All-install_from P (suc tail) bs (installed tail x s)
      (keep (installed tail x s).disk (λ b h. ground arith), a)
      (λ d same. keep d (λ b h. ground (arith, same b)))

-- The blocks that `write_log` writes.
unfoldable pub in_log : (start tail n : ℕ) → ℕ → Bool
in_log start tail n b = leb (start + tail + 1) b && leb b (start + tail + n)

pub All-write_log_from :
    (P : Disk → Type 0) (tail : ℕ) (bs : List ℕ) (s : State)
    → All P s.disks
    → ((d : Disk) → ((b : ℕ) → in_log s.start tail (length bs) b ≡ false → d b ≡ s.disk b) → P d)
    → All P (write_log_from tail bs s).disks
unfolding write_log_from copy bwrite upd in_log
All-write_log_from P tail [] s a keep = a
All-write_log_from P tail (x ∷ bs) s a keep =
    All-write_log_from P (suc tail) bs (copy (s.start + tail + 1) x s)
      (keep (copy (s.start + tail + 1) x s).disk (λ b h. ground arith), a)
      (λ d same. keep d (λ b h. ground (arith, same b)))

-- Off the log blocks `write_log` changes nothing.
pub write_log_from-off :
    (tail : ℕ) (bs : List ℕ) (s : State) (b : ℕ)
    → in_log s.start tail (length bs) b ≡ false
    → ((write_log_from tail bs s).disk b ≡ s.disk b)
      × ((write_log_from tail bs s).cache b ≡ s.cache b)
unfolding write_log_from copy bwrite upd in_log
write_log_from-off tail [] s b h = (refl, refl)
write_log_from-off tail (x ∷ bs) s b h =
    ground (arith, write_log_from-off (suc tail) bs (copy (s.start + tail + 1) x s) b)

pub get_elem?-mem : (bs : List ℕ) (i b : ℕ) → get_elem? bs i ≡ some b → mem b bs ≡ true
unfolding mem
get_elem?-mem [] i b e = absurd (ground arith)
get_elem?-mem (x ∷ bs) zero b e = ground arith
get_elem?-mem (x ∷ bs) (suc i) b e = ground (arith, get_elem?-mem bs i b e)

-- The log blocks hold the cached content of their homes afterwards, on the disk and in the cache.
pub write_log_from-get :
    (tail size : ℕ) (bs : List ℕ) (s : State) (i b : ℕ)
    → Homes s.start size bs
    → tail + length bs ≤ size
    → get_elem? bs i ≡ some b
    → ((write_log_from tail bs s).disk (s.start + tail + 1 + i) ≡ s.cache b)
      × ((write_log_from tail bs s).cache (s.start + tail + 1 + i) ≡ s.cache b)
unfolding write_log_from copy bwrite upd in_log is_home
write_log_from-get tail size [] s i b homes fits e = absurd (ground arith)
write_log_from-get tail size (x ∷ bs) s zero b homes fits e =
    ground
      (arith, write_log_from-off (suc tail) bs (copy (s.start + tail + 1) x s) (s.start + tail + 1))
write_log_from-get tail size (x ∷ bs) s (suc i) b homes fits e =
    let t = copy (s.start + tail + 1) x s in
    let home = homes b (get_elem?-mem (x ∷ bs) (suc i) b e) in
    let kept : t.cache b ≡ s.cache b = ground arith in
    let rest =
      write_log_from-get (suc tail) size bs t i b (Homes-tail s.start size x bs homes) (omega arith)
        e in
    let same : s.start + suc tail + 1 + i ≡ s.start + tail + 1 + suc i = omega arith in
    ground (arith, rw (same, kept) at rest)
