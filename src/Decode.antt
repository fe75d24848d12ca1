-- ===== src/Decode.antt =====
-- nemu/include/cpu/decode.h: the matching of instruction patterns.
pub mod Pattern
pub mod Digits
pub mod Match
pub mod Lines
