-- ===== src/Fs/Tests.antt =====
-- kernel/fs.c on a disk of 20 blocks whose free map, block 10, has the first eleven in use.
use ev.Prelude.{ℕ, ◌/◌, ◌≡◌, refl, true, ◌==◌, if◌then◌else◌, ok, arith}
use ev.Fs.Bits.{is_set, set_bit, clear_bit}
use ev.Fs.{State, bzero, change_byte, scan, take, balloc_from, balloc, bfree}
use ev.Fs.Scan.{used, First}
use ev.Fs.Alloc.{IsBytes, IsReserved, used-balloc, bfree-balloc}

abbrev free_map : ℕ → ℕ
free_map i = if i == 0 then 255 else if i == 1 then 7 else 0

abbrev disk : State
disk = record { blocks = λ b. if b == 10 then free_map else (λ i. 1); size = 20; bmapstart = 10 }

disk-IsBytes : IsBytes disk
disk-IsBytes b i = ground arith

disk-IsReserved : IsReserved disk
unfolding used is_set
disk-IsReserved m lt = let e : m / 8192 ≡ 0 = omega arith in rw e refl

abbrev after : State
after = bzero 11 (change_byte (set_bit 3) 10 1 disk)

given : balloc disk ≡ ok (11, after)
unfolding balloc balloc_from scan take is_set
given = refl

abbrev freed : State
freed = change_byte (clear_bit 2) 10 1 disk

back_again : bfree 10 disk ≡ ok freed
unfolding bfree is_set
back_again = refl

used-balloc_example : First disk 11 × (used 12 after ≡ (if 11 == 12 then true else used 12 disk))
used-balloc_example = used-balloc 11 12 disk after disk-IsBytes disk-IsReserved (omega arith) given

bfree-balloc_example : (u : State) × (bfree 11 after ≡ ok u) × (used 11 u ≡ used 11 disk)
bfree-balloc_example =
    bfree-balloc 11 11 disk after disk-IsBytes disk-IsReserved (omega arith) given
