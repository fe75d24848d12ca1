-- ===== src/Tests/Cpu.antt =====
-- The execution loop at a concrete program.
use bailuwan.Memory.Mmio.{in_pmem}
use bailuwan.Memory.Paddr.{guest_to_host, pmem_read, paddr_read}
use bailuwan.Riscv.Word.{bits}
use bailuwan.Riscv.Operand.{fields, decode_operand}
use bailuwan.Riscv.Lines.{inv_line, exec_lines}
use bailuwan.Decode.Pattern.{first_match}
use bailuwan.Riscv.Body.{control, compute, body, run_line, decode_exec, isa_exec_once}
use bailuwan.Base.{refl, ◌≡◌, arith, ℕ, false}
use bailuwan.Tests.Setup.{env, machine, cpu, bus, zeros, at_start}
use bailuwan.Memory.Host.{store, host_read, deref, load}
use bailuwan.Cpu.Exec.{System, Hooks, cpu_exec, cpu_exec_at, execute, exec_once, trace_and_difftest}
use bailuwan.Cpu.Steps.{execute-Executed, Executed}
use bailuwan.Sdb.Watchpoint.{init_wp_pool}
use bailuwan.Sdb.Breakpoint.{init_bp_pool}
use bailuwan.Base.Run.{ok}
use bailuwan.Riscv.State.{mem_read, gpr_write, update, Machine, nemu_running, nemu_stop}

abbrev no_hooks : Hooks
no_hooks = record { watchpoint = false; breakpoint = false }

-- A machine that runs, with the word `inst` at its program counter.
abbrev pub running : ℕ → Machine
running inst = record machine {
  bus = record bus { pmem = store zeros 0 4 inst };
  nemu = record { state = nemu_running; halt_pc = 0; halt_ret = 0 };
}

abbrev pub system : Machine → ℕ → System
system m count = record {
  machine = m;
  watchpoints = init_wp_pool;
  breakpoints = init_bp_pool;
  nr_guest_inst = count;
}

-- The machine behind fence.i.
abbrev behind : Machine
behind = record (running 0x0000_100f) {
  cpu = record cpu { gpr = update zeros 0 0; pc = 0x8000_0004 };
}

one_step :
    execute env no_hooks 1 (at_start 0) (system (running 0x0000_100f) 0) ≡ ok (system behind 1)
unfolding execute exec_once trace_and_difftest isa_exec_once decode_exec first_match exec_lines
    inv_line run_line decode_operand fields bits gpr_write mem_read paddr_read body compute control
    in_pmem pmem_read guest_to_host host_read deref store load update
one_step = refl

execute-Executed_example :
    Executed env no_hooks 1 (at_start 0) (system (running 0x0000_100f) 0) (system behind 1)
execute-Executed_example =
    execute-Executed env no_hooks 1 (at_start 0) (system (running 0x0000_100f) 0) (system behind 1)
      (omega arith) one_step

abbrev pub stopped : Machine
stopped = record behind { nemu = record { state = nemu_stop; halt_pc = 0; halt_ret = 0 } }

pub one_run :
    cpu_exec env no_hooks 1 (at_start 0) (system (running 0x0000_100f) 0) ≡ ok (system stopped 1)
unfolding cpu_exec cpu_exec_at execute exec_once trace_and_difftest isa_exec_once decode_exec
    first_match exec_lines inv_line run_line decode_operand fields bits gpr_write mem_read
    paddr_read body compute control in_pmem pmem_read guest_to_host host_read deref store load
    update
one_run = refl
