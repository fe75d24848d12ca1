-- ===== src/Memory/Map.antt =====
-- nemu/src/device/io/map.c and nemu/include/device/map.h: registers of devices behind a range of
-- addresses. The logging of CONFIG_DTRACE is left out, and so is `difftest_skip_ref`, which only
-- the differential test reads.
use bailuwan.Base.{
  ℕ, ◌+◌, ◌-◌, ◌*◌, ◌/◌, ◌^◌, Bool, true, false, ◌&&◌, Option, none, some, List, [], ◌∷◌, leb, ltb,
  if◌then◌else◌,
}
use bailuwan.Base.Run.{Run, ok, stop, assert_fail, undefined, Cmd, and_then}
use bailuwan.Memory.Host.{host_read, host_write}
use bailuwan.Memory.Bus.{IoMap, Bus, Env}

abbrev pub io_space_max : ℕ
io_space_max = 512 * 1024 * 1024

abbrev pub page_size : ℕ
page_size = 2 ^ 12

-- `size` is an `int` that is not negative. The rounded size is converted back to `int`; one that
-- does not fit would move `p_space` before the start of the space.
unfoldable pub new_space : ℕ → Cmd Bus ℕ
new_space size b =
    let size' = (size + (page_size - 1)) / page_size * page_size in
    if ltb size' (2 ^ 31)
    then if ltb (b.p_space + size') io_space_max
      then ok (b.p_space, record b { p_space = b.p_space + size' })
      else stop assert_fail
    else stop undefined

unfoldable pub map_inside : IoMap → ℕ → Bool
map_inside map addr = leb map.low addr && leb addr map.high

-- The first map that holds the address; `none` for -1.
unfoldable pub find_map_by_addr : List IoMap → ℕ → Option IoMap
unfolding map_inside
find_map_by_addr [] addr = none
find_map_by_addr (m ∷ ms) addr = if map_inside m addr then some m else find_map_by_addr ms addr

-- `none` is the map NULL.
unfoldable pub check_bound : Option IoMap → ℕ → Bool
check_bound none addr = false
check_bound (some map) addr = leb addr map.high && leb map.low addr

module _ (env : Env) where
  unfoldable pub invoke_callback : Option ℕ → ℕ → ℕ → Bool → Bus → Run Bus
  invoke_callback none offset len is_write b = ok b
  invoke_callback (some c) offset len is_write b = env.call c offset len is_write b

  unfoldable pub map_read_at : ℕ → ℕ → IoMap → Cmd Bus ℕ
  unfolding invoke_callback
  map_read_at addr len map b =
      let offset = addr - map.low in
      and_then (invoke_callback map.callback offset len false b) λ b'.
        and_then (host_read env.rt_check io_space_max b'.io_space (map.space + offset) len)
          λ ret. ok (ret, b')

  unfoldable pub map_read : ℕ → ℕ → Option IoMap → Cmd Bus ℕ
  unfolding map_read_at check_bound
  map_read addr len none b = if b.in_difftest_tracesim then ok (0, b) else stop assert_fail
  map_read addr len (some map) b =
      if leb 1 len && leb len 8
      then if check_bound (some map) addr then map_read_at addr len map b else stop assert_fail
      else stop assert_fail

  unfoldable pub map_write_at : ℕ → ℕ → ℕ → IoMap → Bus → Run Bus
  unfolding invoke_callback
  map_write_at addr len v map b =
      let offset = addr - map.low in
      and_then (host_write env.rt_check io_space_max b.io_space (map.space + offset) len v)
        λ io. invoke_callback map.callback offset len true (record b { io_space = io })

  unfoldable pub map_write : ℕ → ℕ → ℕ → Option IoMap → Bus → Run Bus
  unfolding map_write_at check_bound
  map_write addr len v none b = if b.in_difftest_tracesim then ok b else stop assert_fail
  map_write addr len v (some map) b =
      if leb 1 len && leb len 8
      then if check_bound (some map) addr then map_write_at addr len v map b else stop assert_fail
      else stop assert_fail
