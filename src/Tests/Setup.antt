-- ===== src/Tests/Setup.antt =====
-- A small machine: 256 bytes of memory at 0x80000000, no devices.
use bailuwan.Riscv.Alu.{
  riscv_remu, riscv_rem, riscv_divu, riscv_div, riscv_mulhu, riscv_mulhsu, riscv_mulh, riscv_mul,
}
use bailuwan.Riscv.Word.{
  shl64, sext, bits, shift_right_signed, shift_right, shift_left, less_signed, complement, sub_word,
  add_word,
}
use bailuwan.Memory.Paddr.{paddr_write, paddr_read}
use bailuwan.Riscv.Operand.{
  csr_addr, imm_csr, imm_j, imm_b, imm_s, imm_u, imm_i, fields, decode_operand,
}
use bailuwan.Riscv.Body.{decode_exec, condition, sext_word, control, compute, body, run_line}
use bailuwan.Riscv.Lines.{inv_line, exec_lines}
use bailuwan.Decode.Pattern.{first_match}
use bailuwan.Base.Run.{ok, Run}
use bailuwan.Riscv.Exec.{
  invalid_inst, riscv_mret, riscv_ecall, riscv_csrrc, riscv_csrrs, riscv_csrrw, riscv_csrrci,
  riscv_csrrsi, riscv_csrrwi, isa_raise_intr, even_target, csr_body, store_src2, load_rd, set_rd,
  Decode,
}
use bailuwan.Riscv.State.{
  set_nemu_state, mem_write, mem_read, csr_write, csr_read, gpr_write, gpr_read, nemu_running,
  Machine, Cpu,
}
use bailuwan.Memory.Bus.{Bus, Env}
use bailuwan.Base.{false, [], true, Bool, ℕ}

abbrev pub no_call : ℕ → ℕ → ℕ → Bool → Bus → Run Bus
no_call c offset len is_write b = ok b

abbrev pub env : Env
env = record {
  mbase = 0x8000_0000;
  msize = 0x100;
  rt_check = true;
  device = false;
  nr_gpr = 32;
  pc_reset_offset = 0;
  call = no_call;
}

abbrev pub zeros : ℕ → ℕ
zeros i = 0

abbrev pub bus : Bus
bus = record {
  pmem = zeros;
  io_space = zeros;
  p_space = 0;
  maps = [];
  in_difftest_tracesim = false;
}

abbrev pub cpu : Cpu
cpu = record { gpr = zeros; pc = 0x8000_0000; csr = zeros; priv_level = 3 }

abbrev pub machine : Machine
machine = record {
  cpu = cpu;
  bus = bus;
  nemu = record { state = nemu_running; halt_pc = 0; halt_ret = 0 };
}

-- A decode structure at the start of memory.
abbrev pub at_start : ℕ → Decode
at_start inst = record { pc = 0x8000_0000; snpc = 0x8000_0004; dnpc = 0; inst = inst }

-- One instruction, run with everything open.
unfoldable pub exec_inst : ℕ → Machine → Run (Decode × Machine)
unfolding bits sext shl64 first_match exec_lines inv_line run_line decode_operand fields gpr_read
    gpr_write csr_read csr_write mem_read mem_write paddr_read paddr_write imm_i imm_u imm_s imm_b
    imm_j imm_csr csr_addr body compute control set_rd load_rd store_src2 csr_body sext_word
    condition even_target add_word sub_word complement less_signed shift_left shift_right
    shift_right_signed riscv_mul riscv_mulh riscv_mulhsu riscv_mulhu riscv_div riscv_divu riscv_rem
    riscv_remu isa_raise_intr riscv_csrrwi riscv_csrrsi riscv_csrrci riscv_csrrw riscv_csrrs
    riscv_csrrc riscv_ecall riscv_mret invalid_inst set_nemu_state decode_exec
exec_inst inst m = decode_exec env (at_start inst) m
