-- ===== src/Tests/Yield.antt =====
-- A yield at a concrete machine.
use bailuwan.Base.{ℕ, ◌<◌, ◌≡◌, ◌≢◌, refl, arith, some}
use bailuwan.Base.Run.{ok}
use bailuwan.Riscv.State.{Machine, update, csr_mstatus}
use bailuwan.Riscv.Exec.{jump}
use bailuwan.Tests.Setup.{env, machine, cpu, zeros, at_start}
use bailuwan.Cte.Handler.{Context, Handler, kcontext}
use bailuwan.Cte.Yield.{yield, yielded, yield-resumed, yield-kcontext}

-- a7 is -1 and the stack pointer 0x80000100.
abbrev yielding : Machine
yielding = record machine {
  cpu = record cpu { gpr = update (update zeros 17 0xffff_ffff) 2 0x8000_0100 };
}

abbrev same_context : Handler
same_context ev c = some c

yield-resumed_example :
    (m' : Machine) × (yield env
        (omega arith)
        (at_start 0x73)
        (at_start 0x3020_0073)
        (some same_context)
        zeros
        yielding
      ≡ ok (jump 0x8000_0004 (at_start 0x3020_0073), m'))
    × (m'.cpu.csr csr_mstatus ≡ 0)
    × (m'.cpu.gpr 2 ≡ 0x8000_0100)
    × ((i : ℕ) → 0 < i → i ≢ 2 → m'.cpu.gpr i ≡ (yielded zeros 0x8000_0000 yielding).1.gpr i)
unfolding update
yield-resumed_example =
    yield-resumed env (omega arith) (at_start 0x73) (at_start 0x3020_0073) yielding zeros
      same_context (yielded zeros 0x8000_0000 yielding).0 (yielded zeros 0x8000_0000 yielding).1
      refl refl refl refl refl

abbrev blank : Context
blank = record { gpr = zeros; mcause = 0; mstatus = 0; mepc = 0 }

abbrev to_thread : Handler
to_thread ev c = some (kcontext 0x8000_00c0 0x8000_0040 7 blank)

yield-kcontext_example :
    (m' : Machine) × (yield env
        (omega arith)
        (at_start 0x73)
        (at_start 0x3020_0073)
        (some to_thread)
        zeros
        yielding
      ≡ ok (jump 0x8000_0040 (at_start 0x3020_0073), m'))
    × (m'.cpu.csr csr_mstatus ≡ 0x1800)
    × (m'.cpu.gpr 2 ≡ 0x8000_00bc)
    × (m'.cpu.gpr 10 ≡ 7)
unfolding update
yield-kcontext_example =
    yield-kcontext env (omega arith) (at_start 0x73) (at_start 0x3020_0073) yielding zeros to_thread
      0x8000_00c0 0x8000_0040 7 blank refl refl refl refl (omega arith) (omega arith) refl
