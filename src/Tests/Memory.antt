-- ===== src/Tests/Memory.antt =====
-- The theorems on the bus at concrete accesses.
use bailuwan.Memory.Device.{paddr_device}
use bailuwan.Memory.Copy.{copy_from_paddr-copy_to_paddr}
use bailuwan.Memory.Host.{store, load}
use bailuwan.Memory.Access.{
  paddr_undefined_iff, paddr_read-paddr_write, paddr_read-paddr_write_apart,
}
use bailuwan.Base.Run.{undefined, stop, ok}
use bailuwan.Tests.Setup.{zeros, bus, env}
use bailuwan.Base.{
  ◌-◌, ◌<◌, ◌+◌, ◌↔◌, ◌^◌, refl, [], ◌%◌, ◌++◌, arith, false, ◌∷◌, true, ◌≡◌, none, ℕ,
}
use bailuwan.Memory.Map.{invoke_callback}
use bailuwan.Memory.Table.{add_mmio_map-IsTable, new_map, IsTable}
use bailuwan.Memory.Paddr.{copy_from_paddr, copy_to_paddr, paddr_write, paddr_read}
use bailuwan.Memory.Mmio.{add_mmio_map, in_pmem}
use bailuwan.Memory.Bus.{IoMap, Env, Bus}

paddr_read-paddr_write_example :
    (b' : Bus) × (paddr_write env 0x8000_0010 2 0x1_2345 bus ≡ ok b')
    × (paddr_read env 0x8000_0010 2 b' ≡ ok (0x1_2345 % 256 ^ 2, b'))
paddr_read-paddr_write_example =
    paddr_read-paddr_write env 0x8000_0010 2 0x1_2345 bus (omega arith) (omega arith) (omega arith)

paddr_read-paddr_write_apart_example :
    (b' : Bus) × (n : ℕ) × (paddr_write env 0x8000_0010 4 7 bus ≡ ok b')
    × (paddr_read env 0x8000_0014 1 bus ≡ ok (n, bus))
    × (paddr_read env 0x8000_0014 1 b' ≡ ok (n, b'))
paddr_read-paddr_write_apart_example =
    paddr_read-paddr_write_apart env 0x8000_0010 4 7 0x8000_0014 1 bus (omega arith) (omega arith)
      (omega arith) (omega arith) (omega arith) (omega arith)

last_byte_in_pmem : in_pmem env 0x8000_00ff ≡ true
unfolding in_pmem
last_byte_in_pmem = refl

-- The last byte of memory, read and written as a word.
paddr_undefined_iff_example :
    ((paddr_read env 0x8000_00ff 4 bus ≡ stop undefined) ↔ (0x8000_0000 + 0x100 < 0x8000_00ff + 4))
    × ((paddr_write env 0x8000_00ff 4 9 bus ≡ stop undefined)
        ↔ (0x8000_0000 + 0x100 < 0x8000_00ff + 4))
paddr_undefined_iff_example =
    paddr_undefined_iff env 0x8000_00ff 4 9 bus (omega arith) (omega arith) (omega arith)
      last_byte_in_pmem

copy_from_paddr-copy_to_paddr_example :
    (b' : Bus) × (copy_to_paddr env 0x8000_00fd (1 ∷ 2 ∷ 255 ∷ []) bus ≡ ok b')
    × (copy_from_paddr env 0x8000_00fd 3 b' ≡ ok (1 ∷ 2 ∷ 255 ∷ [], b'))
copy_from_paddr-copy_to_paddr_example =
    copy_from_paddr-copy_to_paddr env 0x8000_00fd (1 ∷ 2 ∷ 255 ∷ []) bus (omega arith) (omega arith)
      (omega arith)

-- A machine with a device of 8 bytes at 0xa00003f8 and no callback.
abbrev dev_env : Env
dev_env = record env { device = true }

abbrev uart : IoMap
uart = record { low = 0xa000_03f8; high = 0xa000_03ff; space = 0; callback = none }

abbrev dev_bus : Bus
dev_bus = record bus { maps = uart ∷ [] }

outside_pmem : in_pmem dev_env 0xa000_03f8 ≡ false
unfolding in_pmem
outside_pmem = refl

no_map_outside : in_pmem dev_env 0x1000 ≡ false
unfolding in_pmem
no_map_outside = refl

bus-IsTable : IsTable dev_env bus
bus-IsTable = record { room = omega arith; apart = tt; off = tt }

registers : add_mmio_map dev_env 0xa000_03f8 0 8 none bus ≡ ok dev_bus
unfolding add_mmio_map
registers = refl

add_mmio_map-IsTable_example :
    IsTable dev_env dev_bus × (dev_bus.maps ≡ bus.maps ++ new_map 0xa000_03f8 0 8 none ∷ [])
add_mmio_map-IsTable_example =
    add_mmio_map-IsTable dev_env 0xa000_03f8 0 8 none bus dev_bus bus-IsTable registers

no_callback : invoke_callback dev_env none 0 1 false dev_bus ≡ ok dev_bus
unfolding invoke_callback
no_callback = refl

paddr_device_example :
    (paddr_read dev_env 0xa000_03f8 1 dev_bus
      ≡ ok (load zeros (0 + (0xa000_03f8 - 0xa000_03f8)) 1, dev_bus))
    × (paddr_write dev_env 0xa000_03f8 1 65 dev_bus
        ≡ invoke_callback dev_env none
            (0xa000_03f8 - 0xa000_03f8)
            1
            true
            (record dev_bus { io_space = store zeros (0 + (0xa000_03f8 - 0xa000_03f8)) 1 65 }))
paddr_device_example =
    paddr_device dev_env 0xa000_03f8 1 65 0 uart dev_bus dev_bus refl outside_pmem (omega arith)
      (tt, tt) refl (omega arith) (omega arith) no_callback
