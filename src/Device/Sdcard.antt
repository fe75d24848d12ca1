-- ===== src/Device/Sdcard.antt =====
-- nemu/src/device/sdcard.c and nemu/src/device/mmc.h: the commands and the data register of the SD
-- card, on an image file of the C library.
use Prim.Native.Nat.{min, max}
use bailuwan.Base.{
  ◌||◌, ℕ, ◌+◌, ◌-◌, ◌*◌, ◌/◌, ◌%◌, ◌^◌, Bool, true, false, ◌==◌, bit_and, bit_or, if◌then◌else◌,
  Option, none, some,
}
use bailuwan.Base.Run.{Run, ok, stop, panic, and_then}
use bailuwan.Memory.Host.{Memory, load, store}
use bailuwan.Device.Port.{Registers, set_register}

abbrev pub memory_size : ℕ
memory_size = 16 * 1024 * 1024 * 1024

abbrev pub read_bl_len : ℕ
read_bl_len = 15

abbrev pub block_len : ℕ
block_len = 2 ^ read_bl_len

abbrev pub nr_block : ℕ
nr_block = memory_size / block_len

abbrev pub c_size_mult : ℕ
c_size_mult = 7

abbrev pub mult : ℕ
mult = 2 ^ (c_size_mult + 2)

abbrev pub c_size : ℕ
c_size = nr_block / mult - 1

-- The indices of the registers.
abbrev pub sdcmd : ℕ
sdcmd = 0

abbrev pub sdarg : ℕ
sdarg = 1

abbrev pub sdrsp0 : ℕ
sdrsp0 = 4

abbrev pub sdrsp1 : ℕ
sdrsp1 = 5

abbrev pub sdrsp2 : ℕ
sdrsp2 = 6

abbrev pub sdrsp3 : ℕ
sdrsp3 = 7

abbrev pub sddata : ℕ
sddata = 16

-- A `FILE` that is open for reading and writing: its bytes, which are 0 from its size on, and the
-- position in it. Writing to it does not fail.
pub record File : Type 0 where
  pub content : Memory
  pub size : ℕ
  pub position : ℕ

-- `fseek(fp, p, SEEK_SET)`
unfoldable pub fseek_set : ℕ → File → File
fseek_set p f = record f { position = p }

-- `fread(&word, 4, 1, fp)`: near the end of the file, the bytes that are left.
unfoldable pub fread_word : ℕ → File → ℕ × File
fread_word word f =
    let n = min 4 (f.size - f.position) in
    (load f.content f.position n + word / 256 ^ n * 256 ^ n, record f { position = f.position + n })

-- `fwrite(&word, 4, 1, fp)`
unfoldable pub fwrite_word : ℕ → File → File
fwrite_word word f = record {
  content = store f.content f.position 4 word;
  size = max f.size (f.position + 4);
  position = f.position + 4;
}

-- `fp` is `none` for NULL.
pub record Sdcard : Type 0 where
  pub fp : Option File
  pub base : Registers
  pub blkcnt : ℕ
  pub blk_addr : ℕ
  pub addr : ℕ
  pub write_cmd : Bool
  pub read_ext_csd : Bool

unfoldable pub seek_block : ℕ → Option File → Option File
unfolding fseek_set
seek_block blk_addr none = none
seek_block blk_addr (some f) = some (fseek_set (blk_addr * 2 ^ 9) f)

unfoldable pub prepare_rw : Bool → Sdcard → Sdcard
unfolding seek_block
prepare_rw is_write s =
    let blk_addr = s.base sdarg in
    record s { blk_addr = blk_addr; addr = 0; fp = seek_block blk_addr s.fp; write_cmd = is_write }

unfoldable pub respond : ℕ → ℕ → ℕ → ℕ → Sdcard → Sdcard
respond r0 r1 r2 r3 s = record s {
  base =
      set_register (set_register (set_register (set_register s.base sdrsp0 r0) sdrsp1 r1) sdrsp2 r2)
        sdrsp3 r3;
}

unfoldable pub sdcard_handle_cmd : ℕ → Sdcard → Run Sdcard
unfolding prepare_rw respond
sdcard_handle_cmd cmd s =
    if cmd == 0
    then ok s
    else if cmd == 1
    then ok (record s { base = set_register s.base sdrsp0 0x80ff_8000 })
    else if cmd == 2
    then ok (respond 1 0 0 0x1500_0000 s)
    else if cmd == 52
    then ok s
    else if cmd == 9
    then ok (
        respond 0x9240_4001 (bit_or 0x124b_97e3 (bit_and c_size 3 * 2 ^ 30))
          (bit_or (bit_or 0x0f50_8000 (c_size / 2 ^ 2)) (read_bl_len * 2 ^ 16)) 0x9026_012a s)
    else if cmd == 8
    then ok (record s { read_ext_csd = true; addr = 0 })
    else if cmd == 5
    then ok s
    else if cmd == 55
    then ok s
    else if cmd == 3
    then ok s
    else if cmd == 7
    then ok s
    else if cmd == 23
    then ok (record s { blkcnt = bit_and (s.base sdarg) (2 ^ 16 - 1) })
    else if cmd == 18
    then ok (prepare_rw false s)
    else if cmd == 25
    then ok (prepare_rw true s)
    else if cmd == 13
    then ok (respond 0x900 0 0 0 s)
    else if cmd == 12
    then ok s
    else stop panic

-- The word of the EXT_CSD register at `addr`.
unfoldable pub ext_csd : ℕ → ℕ
ext_csd addr = if addr == 192 then 2 else if addr == 212 then memory_size / 512 else 0

unfoldable pub transfer : Sdcard → File → Sdcard
unfolding fread_word fwrite_word
transfer s f =
    if s.write_cmd
    then record s { fp = some (fwrite_word (s.base sddata) f) }
    else let (word, f') = fread_word (s.base sddata) f in
      record s { fp = some f'; base = set_register s.base sddata word }

unfoldable pub transfer_data : Option File → Sdcard → Sdcard
unfolding transfer
transfer_data none s = s
transfer_data (some f) s = transfer s f

unfoldable pub sdcard_data : Sdcard → Sdcard
unfolding transfer_data ext_csd
sdcard_data s =
    let s' =
      if s.read_ext_csd
      then record s {
        base = set_register s.base sddata (ext_csd s.addr);
        read_ext_csd = if s.addr == 512 - 4 then false else s.read_ext_csd;
      }
      else transfer_data s.fp s in
    record s' { addr = (s'.addr + 4) % 2 ^ 32 }

unfoldable pub sdcard_io_handler : ℕ → ℕ → Bool → Sdcard → Run Sdcard
unfolding sdcard_handle_cmd sdcard_data
sdcard_io_handler offset len is_write s =
    let idx = offset / 4 in
    if idx == sdcmd
    then sdcard_handle_cmd (bit_and (s.base sdcmd) 63) s
    else if idx == sdarg || idx == sdrsp0 || idx == sdrsp1 || idx == sdrsp2 || idx == sdrsp3
    then ok s
    else if idx == sddata
    then ok (sdcard_data s)
    else stop panic

-- A guest's 4-byte accesses: `map_write` stores, then calls the handler; `map_read` calls it first.
unfoldable pub outl_sd : ℕ → ℕ → Sdcard → Run Sdcard
unfolding sdcard_io_handler
outl_sd idx v s = sdcard_io_handler (idx * 4) 4 true (record s { base = set_register s.base idx v })

unfoldable pub inl_sd : ℕ → Sdcard → Run (ℕ × Sdcard)
unfolding sdcard_io_handler
inl_sd idx s = and_then (sdcard_io_handler (idx * 4) 4 false s) λ s'. ok (s'.base idx, s')
