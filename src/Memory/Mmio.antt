-- ===== src/Memory/Mmio.antt =====
-- nemu/src/device/io/mmio.c: the table of memory-mapped devices.
use bailuwan.Base.{
  ℕ, ◌+◌, ◌-◌, ◌%◌, ◌^◌, Bool, true, false, ◌&&◌, ◌||◌, Option, List, [], ◌∷◌, ◌++◌, leb, ltb,
  length, if◌then◌else◌,
}
use bailuwan.Base.Run.{Run, ok, stop, assert_fail, panic, Cmd}
use bailuwan.Memory.Bus.{IoMap, Bus, Env}
use bailuwan.Memory.Map.{find_map_by_addr, map_read, map_write}

abbrev pub nr_map_max : ℕ
nr_map_max = 16

-- The loop of `add_mmio_map` over the maps there are.
unfoldable pub overlaps_any : ℕ → ℕ → List IoMap → Bool
overlaps_any left right [] = false
overlaps_any left right (m ∷ ms) =
    if leb left m.high && leb m.low right then true else overlaps_any left right ms

unfoldable pub fetch_mmio_map : ℕ → Bus → Option IoMap
unfolding find_map_by_addr
fetch_mmio_map addr b = find_map_by_addr b.maps addr

module _ (env : Env) where
  -- `in_pmem` of paddr.h: `addr - CONFIG_MBASE < CONFIG_MSIZE`, in 32 bits.
  unfoldable pub in_pmem : ℕ → Bool
  in_pmem addr = ltb ((addr + 2 ^ 32 - env.mbase) % 2 ^ 32) env.msize

  unfoldable pub add_mmio_map : ℕ → ℕ → ℕ → Option ℕ → Bus → Run Bus
  unfolding in_pmem overlaps_any
  add_mmio_map addr space len callback b =
      let right = (addr + len + 2 ^ 32 - 1) % 2 ^ 32 in
      let new : IoMap = record { low = addr; high = right; space = space; callback = callback } in
      if ltb (length b.maps) nr_map_max
      then if in_pmem addr || in_pmem right
        then stop panic
        else if overlaps_any addr right b.maps
        then stop panic
        else ok (record b { maps = b.maps ++ new ∷ [] })
      else stop assert_fail

  unfoldable pub mmio_read : ℕ → ℕ → Cmd Bus ℕ
  unfolding map_read fetch_mmio_map
  mmio_read addr len b = map_read env addr len (fetch_mmio_map addr b) b

  unfoldable pub mmio_write : ℕ → ℕ → ℕ → Bus → Run Bus
  unfolding map_write fetch_mmio_map
  mmio_write addr len v b = map_write env addr len v (fetch_mmio_map addr b) b
