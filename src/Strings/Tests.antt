-- ===== src/Strings/Tests.antt =====
-- kernel/string.c on a memory that holds each address plus one, up to a NUL at 14.
use ev.Prelude.{◌+◌, ◌≡◌, refl, ◌==◌, if◌then◌else◌, upd}
use ev.Prelude.Int.{negsuc}
use ev.Strings.{Bytes, memmove, safestrcpy, copy_string, strncmp, minus}
use ev.Strings.Move.{moved, memmove-moved}

abbrev memory : Bytes
memory i = if i == 14 then 0 else i + 1

-- Eight bytes moved up by two.
memmove-moved_example : memmove 12 10 8 memory 15 ≡ moved 12 10 8 memory 15
memmove-moved_example = memmove-moved 12 10 8 memory 15

overlap : moved 12 10 8 memory 15 ≡ 14
unfolding moved
overlap = refl

cut_off : safestrcpy 30 11 3 memory 32 ≡ 0
unfolding safestrcpy copy_string upd
cut_off = refl

differs : strncmp 11 12 3 memory ≡ negsuc 0
unfolding strncmp minus
differs = refl
