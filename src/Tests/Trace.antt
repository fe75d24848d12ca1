-- ===== src/Tests/Trace.antt =====
-- The traces and the comparison with a reference at concrete runs.
use bailuwan.Tests.Cpu.{running, system}
use bailuwan.Base.{suc, ◌≡◌, arith, false, true, [], ◌∷◌, ◌≢◌}
use bailuwan.Base.Run.{panic, stop, ok}
use bailuwan.Riscv.State.{nemu_stop, Machine, Cpu, update}
use bailuwan.Tests.Setup.{machine, cpu}
use bailuwan.Cpu.Exec.{System}
use bailuwan.Cpu.Reference.{Batch}
use bailuwan.Cpu.Difftest.{Reference, Difftest, checkregs}
use bailuwan.Cpu.CatchUp.{difftest_steps, difftest_steps-catch_up}
use bailuwan.Cpu.Iringbuf.{iringbuf_display, empty_iringbuf}
use bailuwan.Cpu.Latest.{shown, pushes, iringbuf_display-latest}

-- jal x0, 8
abbrev jump : System
jump = system (running 0x0080_006f) 0

abbrev jumped : System
jumped = record jump {
  machine = record (jump.machine) {
    cpu = record cpu { gpr = update (update cpu.gpr 0 0x8000_0004) 0 0; pc = 0x8000_0008 };
    nemu = record { state = nemu_stop; halt_pc = 0; halt_ret = 0 };
  };
  nr_guest_inst = 1;
}

abbrev jump_batch : Batch
jump_batch = record {
  i_stream = 0x8000_0000 ∷ [];
  d_stream = [];
  b_stream = record { pc = 0x8000_0000; target = 0x8000_0008; is_uncond = true; taken = true } ∷ [];
}

-- A reference that does nothing but hold registers.
abbrev holder : Reference Cpu
holder = record { exec = λ r. r; regs = λ r. r; set_regs = λ r r'. r }

abbrev skipping : Difftest Cpu
skipping = record {
  is_skip_ref = false;
  skip_dut_nr_inst = 2;
  ref = record cpu { pc = 0x8000_0008 };
}

abbrev halfway : Machine
halfway = record machine { cpu = record cpu { pc = 0x8000_0004 } }

abbrev arrived : Machine
arrived = record machine { cpu = record cpu { pc = 0x8000_0008 } }

difftest_steps-catch_up_example :
    (skipping.ref.pc ≡ arrived.cpu.pc
      → difftest_steps holder
          ((0x8000_0000, halfway) ∷ (0x8000_0004, arrived) ∷ [])
          machine
          skipping
        ≡ ok (
          checkregs skipping.ref arrived.cpu.pc arrived,
          record skipping { skip_dut_nr_inst = 0 },
        ))
    × (skipping.ref.pc ≢ arrived.cpu.pc
        → suc 1 ≡ skipping.skip_dut_nr_inst
        → difftest_steps holder
            ((0x8000_0000, halfway) ∷ (0x8000_0004, arrived) ∷ [])
            machine
            skipping
          ≡ stop panic)
difftest_steps-catch_up_example =
    difftest_steps-catch_up holder ((0x8000_0000, halfway) ∷ []) 0x8000_0004 arrived machine
      skipping (λ e. absurd (omega (arith, e)), tt) (omega arith)

iringbuf_display-latest_example :
    shown (iringbuf_display (pushes (4 ∷ 8 ∷ 12 ∷ []) empty_iringbuf)) ≡ 4 ∷ 8 ∷ 12 ∷ []
iringbuf_display-latest_example = iringbuf_display-latest (4 ∷ 8 ∷ 12 ∷ [])
