-- ===== src/Cpu.antt =====
-- nemu/src/cpu/cpu-exec.c: the execution loop around the interpreter.
pub mod Kept
pub mod Exec
pub mod Reset
pub mod Steps
pub mod Reference
pub mod Difftest
pub mod CatchUp
pub mod Iringbuf
pub mod Latest
pub mod Once
pub mod Batches
