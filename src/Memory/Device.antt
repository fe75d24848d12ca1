-- ===== src/Memory/Device.antt =====
-- Accesses outside physical memory: they reach the device that owns the address, or stop.
use bailuwan.Base.Run.{panic, assert_fail, stop, ok}
use bailuwan.Memory.Table.{find_map-registered, PairwiseApart}
use bailuwan.Memory.Host.{store, load, assign, deref}
use bailuwan.Memory.Mmio.{in_pmem}
use bailuwan.Memory.Access.{host_write-assign, host_read-deref, IsLen}
use bailuwan.Memory.Paddr.{paddr_write, paddr_read}
use bailuwan.Memory.Map.{io_space_max, invoke_callback, map_write, map_read, find_map_by_addr}
use bailuwan.Base.{
  some, refl, get_elem?, ◌-◌, [], ◌+◌, if◌then◌else◌, false, arith, ◌⊎◌, true, none, ◌<◌, ◌≡◌, ◌∷◌,
  ◌≤◌, ℕ, List,
}
use bailuwan.Memory.Bus.{Bus, Env, IoMap}

abbrev pub Contains : IoMap → ℕ → Type 0
Contains m addr = (m.low ≤ addr) × (addr ≤ m.high)

-- The address belongs to no map of the table.
abbrev pub Unmapped : List IoMap → ℕ → Type 0
Unmapped [] addr = Unit {0}
Unmapped (m ∷ ms) addr = ((addr < m.low) ⊎ (m.high < addr)) × Unmapped ms addr

find_map-Unmapped :
    (ms : List IoMap) (addr : ℕ) → Unmapped ms addr → find_map_by_addr ms addr ≡ none
unfolding find_map_by_addr
find_map-Unmapped [] addr h = refl
find_map-Unmapped (m ∷ ms) addr h = ground (arith, find_map-Unmapped ms addr h.1)

-- An access of an address that is neither physical memory nor a device's. Without devices the
-- program panics. With them the bound check fails, but for the cache simulation of the reference,
-- in which reads give 0 and writes are dropped.
pub paddr-Unmapped :
    (env : Env) (addr len v : ℕ) (b : Bus)
    → in_pmem env addr ≡ false
    → Unmapped b.maps addr
    → (paddr_read env addr len b ≡ (
        if env.device
        then if b.in_difftest_tracesim then ok (0, b) else stop assert_fail
        else stop panic))
      × (paddr_write env addr len v b ≡ (
          if env.device
          then if b.in_difftest_tracesim then ok b else stop assert_fail
          else stop panic))
unfolding paddr_read paddr_write
paddr-Unmapped env addr len v b out free = (
  rw (out, find_map-Unmapped b.maps addr free, map_read),
  rw (out, find_map-Unmapped b.maps addr free, map_write),
)

module _ (env : Env) (addr len : ℕ) (m : IoMap) (width : IsLen len) (own : Contains m addr) where
  map_read-own :
      (b b' : Bus)
      → invoke_callback env m.callback (addr - m.low) len false b ≡ ok b'
      → m.space + (addr - m.low) + len ≤ io_space_max
      → map_read env addr len (some m) b ≡ ok (load b'.io_space (m.space + (addr - m.low)) len, b')
  unfolding map_read deref
  map_read-own b b' done room =
      ground (
        arith,
        host_read-deref env.rt_check io_space_max (m.space + (addr - m.low)) len b'.io_space,
      )

  map_write-own :
      (v : ℕ) (b : Bus)
      → m.space + (addr - m.low) + len ≤ io_space_max
      → map_write env addr len v (some m) b
        ≡ invoke_callback env m.callback
            (addr - m.low)
            len
            true
            (record b { io_space = store b.io_space (m.space + (addr - m.low)) len v })
  unfolding map_write assign
  map_write-own v b room = ground (
    arith,
    host_write-assign env.rt_check io_space_max (m.space + (addr - m.low)) len v b.io_space,
  )

-- A read of a registered device's register first lets the device's callback prepare the data and
-- then loads it from the device's space; a write stores first and then notifies the callback.
pub paddr_device :
    (env : Env) (addr len v i : ℕ) (m : IoMap) (b b' : Bus)
    → env.device ≡ true
    → in_pmem env addr ≡ false
    → IsLen len
    → PairwiseApart b.maps
    → get_elem? b.maps i ≡ some m
    → Contains m addr
    → m.space + (addr - m.low) + len ≤ io_space_max
    → invoke_callback env m.callback (addr - m.low) len false b ≡ ok b'
    → (paddr_read env addr len b ≡ ok (load b'.io_space (m.space + (addr - m.low)) len, b'))
      × (paddr_write env addr len v b
          ≡ invoke_callback env m.callback
              (addr - m.low)
              len
              true
              (record b { io_space = store b.io_space (m.space + (addr - m.low)) len v }))
unfolding paddr_read paddr_write
paddr_device env addr len v i m b b' dev out width pairs at own room done =
    let found = find_map-registered b.maps i addr m pairs at own.0 own.1 in
    (
      rw (out, dev, found) (map_read-own env addr len m width own b b' done room),
      rw (out, dev, found) (map_write-own env addr len m width own v b room),
    )
