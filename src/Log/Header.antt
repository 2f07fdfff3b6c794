-- ===== src/Log/Header.antt =====
-- kernel/log.c: the header block, written by `write_head` and read by `read_head`.
use ev.Prelude.{ℕ, zero, suc, ◌<◌, ◌≤◌, ◌≡◌, refl, ap, List, [], ◌∷◌, length, arith}
use ev.Log.{Block, take, overlay, put_header, header_n, header_blocks}

pub take-overlay : (bs ws : List ℕ) → length bs ≤ length ws → take (length bs) (overlay bs ws) ≡ bs
unfolding take overlay
take-overlay [] ws fits = refl
take-overlay (b ∷ bs) [] fits = absurd (omega arith)
take-overlay (b ∷ bs) (w ∷ ws) fits = ap (λ r. b ∷ r) (take-overlay bs ws (omega arith))

pub length-take : (n : ℕ) (xs : List ℕ) → n ≤ length xs → length (take n xs) ≡ n
unfolding take
length-take zero xs fits = refl
length-take (suc n) [] fits = absurd (omega arith)
length-take (suc n) (x ∷ xs) fits = ap suc (length-take n xs (omega arith))

-- A header that fits in its block is read back as it was written, whatever the block held.
pub header_blocks-put_header :
    (bs : List ℕ) (w : Block)
    → length bs < length w
    → (header_n (put_header (length bs) bs w) ≡ length bs)
      × (header_blocks (put_header (length bs) bs w) ≡ bs)
unfolding header_n header_blocks put_header
header_blocks-put_header bs [] fits = absurd (omega arith)
header_blocks-put_header bs (w ∷ ws) fits = (refl, take-overlay bs ws (omega arith))

pub header_n-zero : (bs : List ℕ) (w : Block) → header_n (put_header 0 bs w) ≡ 0
unfolding header_n put_header
header_n-zero bs [] = refl
header_n-zero bs (w ∷ ws) = refl
