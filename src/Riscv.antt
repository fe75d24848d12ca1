-- ===== src/Riscv.antt =====
-- nemu/src/isa/riscv32: the RV32IM interpreter with Zicsr.
pub mod Invariant
pub mod Typing
pub mod Typed
pub mod Words
pub mod Word
pub mod Alu
pub mod State
pub mod Lines
pub mod Operand
pub mod Exec
pub mod Body
pub mod Dispatch
pub mod Step
pub mod Division
pub mod Immediate
pub mod Predecode
pub mod Agreement
pub mod Names
pub mod Zero
