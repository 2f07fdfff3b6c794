-- ===== src/FileRecovery/Found.antt =====
-- kernel/recovery_handler_file.c: the inode that is found, and what the new table holds.
use ev.Prelude.{
  ℕ, zero, suc, ◌+◌, ◌<◌, ◌≡◌, ◌≢◌, refl, ap, ◌∙◌, inl, inr, ◌⊎◌, Bool, true, false, not, ◌&&◌,
  List, [], ◌∷◌, some, ◌==◌, if◌then◌else◌, get_elem?, Bool-cases, All, arith,
}
use ev.FileRecovery.{
  File, Inode, ProcFiles, is_none, match_files, match_cwds, is_file_or_device, find_inode,
}

-- A file that holds a reference of the inode.
unfoldable pub refers : ℕ → File → Bool
unfolding is_none
refers ip f = not (is_none f.kind) && f.ip == ip

-- All references of the table.
unfoldable pub count_files : ℕ → List File → ℕ
unfolding refers
count_files ip [] = 0
count_files ip (f ∷ fs) = (if refers ip f then 1 else 0) + count_files ip fs

-- The reference count of each inode is the number of files and directories that lead to it.
abbrev pub IsCounted : List File → List ProcFiles → List Inode → Type 0
IsCounted fs ps ips = All (λ n. n.ref ≡ count_files n.addr fs + match_cwds n.addr ps) ips

-- Without the broken entry behind `i` the counts are equal.
match_past :
    (broken ip i : ℕ) (fs : List File) → broken < i → match_files broken ip i fs ≡ count_files ip fs
unfolding match_files count_files refers
match_past broken ip i [] lt = refl
match_past broken ip i (f ∷ fs) lt =
    let e : (i == broken) ≡ false = ground arith in
    rw (e, match_past broken ip (suc i) fs (omega arith)) refl

match_files_lem :
    (broken ip i : ℕ) (fs : List File) (f : File)
    → get_elem? fs broken ≡ some f
    → count_files ip fs ≡ match_files (i + broken) ip i fs + (if refers ip f then 1 else 0)
unfolding match_files count_files refers
match_files_lem broken ip i [] f h = absurd (ground arith)
match_files_lem zero ip i (g ∷ fs) f h =
    let e : (i == i + 0) ≡ true = ground arith in
    let m = match_past (i + 0) ip (suc i) fs (omega arith) in
    let q : g ≡ f = ground arith in rw (e, m, q) omega arith
match_files_lem (suc b) ip i (g ∷ fs) f h =
    let e : (i == i + suc b) ≡ false = ground arith in
    let q : suc i + b ≡ i + suc b = omega arith in
    let ih0 = match_files_lem b ip (suc i) fs f h in let ih = rw q at ih0 in rw e omega (arith, ih)

-- An inode is left out exactly when the broken file does not lead to it.
match-eq :
    (broken ip ref : ℕ) (fs : List File) (ps : List ProcFiles) (f : File)
    → get_elem? fs broken ≡ some f
    → ref ≡ count_files ip fs + match_cwds ip ps
    → (refers ip f ≡ false → ref ≡ match_files broken ip 0 fs + match_cwds ip ps)
      × (refers ip f ≡ true → ref ≡ suc (match_files broken ip 0 fs + match_cwds ip ps))
match-eq broken ip ref fs ps f h e =
    let z : 0 + broken ≡ broken = omega arith in
    let m0 = match_files_lem broken ip 0 fs f h in
    let m = rw z at m0 in
    (λ r. let k = rw r at m in omega (arith, k), λ r. let k = rw r at m in omega (arith, k))

-- The inode at `ip` is in the cache and of a type that is looked for.
abbrev pub Sought : ℕ → List Inode → Type 0
Sought ip [] = ⊥
Sought ip (n ∷ ns) =
    ((n.addr ≡ ip) × (is_file_or_device n.kind ≡ true)) ⊎ ((n.addr ≢ ip) × Sought ip ns)

refers_other : (ip ip' : ℕ) (f : File) → f.ip ≡ ip → ip' ≢ ip → refers ip' f ≡ false
unfolding refers
refers_other ip ip' f e ne = ground arith

refers_self : (f : File) → is_none f.kind ≡ false → refers f.ip f ≡ true
unfolding refers
refers_self f e = ground arith

-- One inode that the broken file does not lead to.
skip :
    (broken : ℕ) (fs : List File) (ps : List ProcFiles) (n : Inode) (ns : List Inode)
    → n.ref ≡ match_files broken n.addr 0 fs + match_cwds n.addr ps
    → find_inode broken fs ps (n ∷ ns) ≡ find_inode broken fs ps ns
unfolding find_inode
skip broken fs ps n ns e = elim (Bool-cases (n.ref == 0)) [
  | inl z ↦ rw z refl
  | inr z ↦
      let q : (n.ref == match_files broken n.addr 0 fs + match_cwds n.addr ps) ≡ true =
        ground arith in
      rw (z, q) refl
]

stop_at :
    (broken : ℕ) (fs : List File) (ps : List ProcFiles) (n : Inode) (ns : List Inode)
    → n.ref ≡ suc (match_files broken n.addr 0 fs + match_cwds n.addr ps)
    → is_file_or_device n.kind ≡ true
    → find_inode broken fs ps (n ∷ ns) ≡ some n.addr
unfolding find_inode
stop_at broken fs ps n ns e k =
    let z : (n.ref == 0) ≡ false = ground arith in
    let q : (n.ref == match_files broken n.addr 0 fs + match_cwds n.addr ps) ≡ false =
      ground arith in
    rw (z, q, k) refl

-- When the count of each inode is the number of files and directories that lead to it, the comparison of
-- the counts finds the inode of the broken file, of which nothing is read. The inode is in the
-- cache, and a file or a device.
pub find_inode-broken :
    (broken : ℕ) (fs : List File) (ps : List ProcFiles) (ns : List Inode) (f : File)
    → get_elem? fs broken ≡ some f
    → is_none f.kind ≡ false
    → IsCounted fs ps ns
    → Sought f.ip ns
    → find_inode broken fs ps ns ≡ some f.ip
find_inode-broken broken fs ps [] f h k w so = elim so [ ]
find_inode-broken broken fs ps (n ∷ ns) f h k (c, w) (inl (e, t)) =
    let r : refers n.addr f ≡ true = rw e (refers_self f k) in
    stop_at broken fs ps n ns ((match-eq broken n.addr n.ref fs ps f h c).1 r) t ∙ ap some e
find_inode-broken broken fs ps (n ∷ ns) f h k (c, w) (inr (ne, so)) =
    let r : refers n.addr f ≡ false = refers_other f.ip n.addr f refl ne in
    skip broken fs ps n ns ((match-eq broken n.addr n.ref fs ps f h c).0 r)
    ∙ find_inode-broken broken fs ps ns f h k w so
