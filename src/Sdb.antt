-- ===== src/Sdb.antt =====
-- nemu/src/monitor/sdb: the simple debugger.
pub mod Count
pub mod Pool
pub mod Chain
pub mod Partition
pub mod Release
pub mod Tokens
pub mod Lexer
pub mod Scan
pub mod Eval
pub mod Fuel
pub mod Syntax
pub mod Parentheses
pub mod Breakpoint
pub mod Watchpoint
pub mod Command
pub mod Hits
pub mod Watched
