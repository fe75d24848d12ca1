-- ===== src/Cte.antt =====
-- abstract-machine/am/src/riscv/nemu: the exceptions of a program on the emulator.
pub mod Handler
pub mod Yield
