-- ===== src/Memory.antt =====
-- nemu/include/memory/host.h, nemu/src/memory/paddr.c, nemu/src/memory/vaddr.c,
-- nemu/include/device/map.h, nemu/src/device/io/map.c and mmio.c: the bus of the emulator.
-- The 32-bit configuration: `word_t`, `vaddr_t` and `paddr_t` are `uint32_t`.
pub mod BusBytes
pub mod Bytes
pub mod Host
pub mod Bus
pub mod Store
pub mod Map
pub mod Mmio
pub mod Paddr
pub mod Access
pub mod Device
pub mod Table
pub mod Copy
