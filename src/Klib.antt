-- ===== src/Klib.antt =====
-- abstract-machine/klib/src: the C library of the bare-metal programs.
pub mod Memory
pub mod Move
pub mod Compare
pub mod Print
pub mod Format
pub mod Numeral
pub mod Padding
pub mod Directive
pub mod Formats
pub mod Pieces
pub mod Related
pub mod Snprintf
pub mod Rounds
pub mod Formatted
pub mod Strings
pub mod Texts
pub mod Stdlib
pub mod Allocation
pub mod Decimal
