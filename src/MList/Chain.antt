-- ===== src/MList/Chain.antt =====
-- kernel/mlist.c: the nodes of a ring, and the addresses that they hold.
use ev.Prelude.{ℕ, ◌≡◌, ◌≢◌, refl, ap, true, false, List, [], ◌∷◌, arith}
use ev.MList.{Mem}
use ev.MList.View.{contains}

-- From `p` the `next` pointers lead through the nodes, which are distinct, to `stop`.
abbrev pub Chain : Mem → ℕ → ℕ → List ℕ → Type 0
Chain h stop p [] = p ≡ stop
Chain h stop p (n ∷ ns) =
    (n ≡ p) × (p ≢ stop) × (contains n ns ≡ false) × Chain h stop (h p).next ns

-- The ring behind a header.
abbrev pub IsRing : Mem → ℕ → List ℕ → Type 0
IsRing h header ns = Chain h header (h header).next ns × (contains header ns ≡ false)

abbrev pub addrs : Mem → List ℕ → List ℕ
addrs h [] = []
addrs h (n ∷ ns) = (h n).addr ∷ addrs h ns

pub Chain-frame :
    (h g : Mem) (stop p : ℕ) (ns : List ℕ)
    → Chain h stop p ns
    → ((n : ℕ) → contains n ns ≡ true → g n ≡ h n)
    → Chain g stop p ns
unfolding contains
Chain-frame h g stop p [] c same = c
Chain-frame h g stop p (n ∷ ns) (e, ne, out, c) same =
    let at : g p ≡ h p = same p (ground arith) in
    (e, ne, out, rw at (Chain-frame h g stop (h p).next ns c (λ m i. same m (ground arith))))

pub addrs-frame :
    (h g : Mem) (ns : List ℕ)
    → ((n : ℕ) → contains n ns ≡ true → g n ≡ h n)
    → addrs g ns ≡ addrs h ns
unfolding contains
addrs-frame h g [] same = refl
addrs-frame h g (n ∷ ns) same =
    let at : g n ≡ h n = same n (ground arith) in
    rw at (ap (λ r. (h n).addr ∷ r) (addrs-frame h g ns (λ m i. same m (ground arith))))
