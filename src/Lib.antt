-- ===== src/Lib.antt =====
-- NEMU, the RISC-V emulator that this repository builds its processor against, and parts of the C
-- library of its programs, as a model with proofs. The model follows the 32-bit configuration of
-- nemu/ (CONFIG_ISA_riscv without CONFIG_RV64).
--
-- Base: shared names, tests, lists, integers, bit operations, and runs that return or stop.
-- Decode: nemu/include/cpu/decode.h. Decode.Pattern has `pattern_decode` and INSTPAT, Decode.Digits
--   and Decode.Match what a pattern means, Decode.Lines tables of patterns.
-- Memory: the bus. Memory.Host is nemu/include/memory/host.h, Memory.Map and Memory.Mmio are
--   nemu/src/device/io/map.c and mmio.c, Memory.Paddr is nemu/src/memory/paddr.c and vaddr.c. The
--   other modules of Memory prove.
-- Riscv: nemu/src/isa/riscv32. Riscv.Word, Riscv.Alu, Riscv.Operand, Riscv.Exec, Riscv.Lines and
--   Riscv.Body are inst.c and system/intr.c, Riscv.State is the state of the processor
--   (`CPU_state`) with the emulator's and the bus beside it.
--   Riscv.Predecode is `isa_decode_ldstr` and `isa_decode_branch`, Riscv.Names is reg.c and csr.c.
--   Riscv.Immediate, Riscv.Division, Riscv.Step, Riscv.Dispatch, Riscv.Zero, Riscv.Agreement,
--   Riscv.Words, Riscv.Typed, Riscv.Typing and Riscv.Invariant prove.
-- Sdb: nemu/src/monitor/sdb. Sdb.Tokens, Sdb.Lexer, Sdb.Scan and Sdb.Eval are expr.c, Sdb.Pool is
--   the lists of breakpoint.c and watchpoint.c, Sdb.Breakpoint and Sdb.Watchpoint the rest of the
--   two, and Sdb.Command the deletion command of sdb.c. The other modules of Sdb prove.
-- Cpu: Cpu.Exec is nemu/src/cpu/cpu-exec.c and Cpu.Iringbuf its ring buffer of the latest
--   instructions, Cpu.Reset is nemu/src/isa/riscv32/init.c and nemu/src/utils/state.c.
--   Cpu.Reference is nemu/src/cpu/difftest/ref.c, with the batches for the cache and the branch
--   simulator, and Cpu.Difftest is dut.c beside it and nemu/src/isa/riscv32/difftest/dut.c. The
--   reference that dut.c loads is a parameter. Cpu.Steps, Cpu.Kept, Cpu.Once, Cpu.Batches,
--   Cpu.CatchUp and Cpu.Latest prove.
-- Device: nemu/src/device, and the drivers for it in abstract-machine/am/src/platform/nemu/ioe.
--   Device.Keyboard is keyboard.c and input.c, Device.Sdcard is sdcard.c, Device.Audio is audio.c
--   of the emulator and Device.Player the one of the driver, Device.Screen is vga.c and gpu.c, and
--   Device.Ports is timer.c, serial.c, ysyxsoc.c and alarm.c with their drivers. Device.Fifo,
--   Device.Typing, Device.Card, Device.ExtCsd, Device.Ring, Device.Stream, Device.Wait, Device.Play,
--   Device.Clock and Device.Drawing prove. A driver's access of a register is the handler and then
--   the load of the register, or the store and then the handler, as `map_read` and `map_write` have
--   it.
-- Klib: abstract-machine/klib/src. Klib.Memory and Klib.Strings are string.c, Klib.Print and
--   Klib.Format are stdio.c, Klib.Stdlib is stdlib.c; the other modules prove. The formatted output
--   takes WRITE_CHAR for a parameter, which is the write to the buffer, or the growth of the text
--   that the buffer holds the start of. Klib.Numeral, Klib.Directive and Klib.Formats say what a
--   format and its arguments stand for, apart from the code that reads them.
-- Cte: abstract-machine/am/src/riscv/nemu. Cte.Handler is cte.c and trap.S, Cte.Yield proves what
--   they come to with the instructions ecall and mret of the emulator. The handler of a program is
--   a parameter that returns a context with its address; what else it does to the processor is left
--   out, since the trap code assigns every register before mret.
-- Tests: runs at concrete inputs and the theorems at inputs that meet their hypotheses.
--
-- A machine word is a number below 2 ^ 32 with its wrap-around written out. A function that changes
-- state takes the state and returns the new one; it may stop, by a failed assertion, a panic, or an
-- access outside an object, which C leaves undefined. The configuration (memory base and size,
-- run-time checks, devices, number of registers) is a record `Env`; so is what the callback of a
-- device does, which the bus code only calls through a function pointer.
--
-- The recursion of the expression evaluator runs on fuel, one more than there are tokens, with what
-- it does when it has none left as a parameter of `eval_or`; loops
-- over the debugger's lists run on fuel for the length of the array. `vsnprintf` runs on fuel for
-- the length of the format, and the functions on texts on any fuel above the length of the text.
--
-- Not modelled: logging and tracing (CONFIG_ITRACE, CONFIG_MTRACE, CONFIG_DTRACE, CONFIG_FTRACE),
-- the loading of a reference, the polling of the host's devices (`device_update`), the calls of SDL,
-- the other instruction sets, and the vendored tools.
pub mod Base
pub mod Decode
pub mod Memory
pub mod Riscv
pub mod Sdb
pub mod Cte
pub mod Cpu
pub mod Device
pub mod Klib
mod Tests
