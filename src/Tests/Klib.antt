-- ===== src/Tests/Klib.antt =====
-- The copies of klib at concrete blocks.
use bailuwan.Base.{refl, ◌≡◌}
use bailuwan.Klib.Memory.{Bytes, memmove, copy_backward, copy_forward, set_byte}
use bailuwan.Klib.Move.{moved, memmove-moved}

-- Each byte is its address.
abbrev counting : Bytes
counting a = a

-- Two blocks that overlap, the target behind the source.
overlap_run : memmove counting 12 10 4 13 ≡ 11
unfolding memmove copy_backward copy_forward set_byte
overlap_run = refl

memmove-moved_example : memmove counting 12 10 4 ≡ moved counting 12 10 4
memmove-moved_example = memmove-moved counting 12 10 4
