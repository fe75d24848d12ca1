-- ===== src/Tests.antt =====
-- Runs of the model at concrete inputs, and the theorems at inputs that meet their hypotheses.
mod Setup
mod Machine
mod Memory
mod Riscv
mod Sdb
mod Debugger
mod Cpu
mod Klib
mod Device
mod Print
mod Trace
mod Yield
