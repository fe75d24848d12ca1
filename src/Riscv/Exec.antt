-- ===== src/Riscv/Exec.antt =====
-- nemu/src/isa/riscv32/inst.c and system/intr.c: `decode_exec`, `isa_exec_once` and what they
-- call, with `invalid_inst` of nemu/src/engine/interpreter/hostcall.c.
use bailuwan.Riscv.Operand.{Operands}
use bailuwan.Riscv.Word.{word, add_word, complement}
use bailuwan.Base.Run.{pure, ◌>>◌, ◌>>=◌, Cmd}
use bailuwan.Riscv.State.{
  csr_mtvec, nemu_abort, csr_mcause, csr_mtval, csr_mepc, set_nemu_state, Machine, mem_write,
  gpr_write, mem_read, csr_read, gpr_read, csr_write,
}
use bailuwan.Memory.Bus.{Env}
use bailuwan.Base.{bit_or, ◌+◌, ◌-◌, ◌^◌, bit_and, if◌then◌else◌, Bool, ℕ}

-- The fields of `struct Decode` that the interpreter uses.
pub record Decode : Type 0 where
  pub pc : ℕ
  pub snpc : ℕ
  pub dnpc : ℕ
  pub inst : ℕ

abbrev pub jump : ℕ → Decode → Decode
jump target s = record s { dnpc = target }

-- The `if` of a conditional branch.
abbrev pub branch_to : Bool → ℕ → Decode → Decode
branch_to taken target s = if taken then jump target s else s

-- `(src1 + imm) & ~1`
unfoldable pub even_target : ℕ → ℕ
even_target a = bit_and a (2 ^ 32 - 2)

module _ (env : Env) where
  unfoldable pub isa_raise_intr : ℕ → ℕ → Cmd Machine ℕ
  isa_raise_intr cause epc = do
    csr_write env csr_mepc epc
    csr_write env csr_mtval epc
    csr_write env csr_mcause cause
    csr_read env csr_mtvec

  unfoldable pub riscv_csrrwi : ℕ → ℕ → ℕ → Cmd Machine (Unit {0})
  riscv_csrrwi csr v rd = do oldval ← csr_read env csr; csr_write env csr v; gpr_write env rd oldval

  unfoldable pub riscv_csrrsi : ℕ → ℕ → ℕ → Cmd Machine (Unit {0})
  riscv_csrrsi csr v rd = do
    oldval ← csr_read env csr
    csr_write env csr (bit_or oldval v)
    gpr_write env rd oldval

  unfoldable pub riscv_csrrci : ℕ → ℕ → ℕ → Cmd Machine (Unit {0})
  riscv_csrrci csr v rd = do
    oldval ← csr_read env csr
    csr_write env csr (bit_and oldval (complement v))
    gpr_write env rd oldval

  unfoldable pub riscv_csrrw : ℕ → ℕ → ℕ → Cmd Machine (Unit {0})
  riscv_csrrw csr rs1 rd = do v ← gpr_read env rs1; riscv_csrrwi csr v rd

  unfoldable pub riscv_csrrs : ℕ → ℕ → ℕ → Cmd Machine (Unit {0})
  riscv_csrrs csr rs1 rd = do v ← gpr_read env rs1; riscv_csrrsi csr v rd

  unfoldable pub riscv_csrrc : ℕ → ℕ → ℕ → Cmd Machine (Unit {0})
  riscv_csrrc csr rs1 rd = do v ← gpr_read env rs1; riscv_csrrci csr v rd

  -- The number is the privilege level plus 8.
  unfoldable pub riscv_ecall : ℕ → Cmd Machine ℕ
  riscv_ecall epc m = isa_raise_intr (m.cpu.priv_level + 8) epc m

  unfoldable pub riscv_mret : Cmd Machine ℕ
  riscv_mret = csr_read env csr_mepc

  -- It reads the two words at the instruction to print them.
  unfoldable pub invalid_inst : ℕ → Cmd Machine (Unit {0})
  invalid_inst thispc = do
    first ← mem_read env thispc 4
    second ← mem_read env (word (thispc + 4)) 4
    set_nemu_state nemu_abort thispc (2 ^ 32 - 1)

  -- `R(rd) = v`, where the rest of the body leaves `s` as it is.
  unfoldable pub set_rd : ℕ → Decode → Operands → Cmd Machine Decode
  set_rd v s o = do gpr_write env o.rd v; pure s

  -- `R(rd) = f(Mr(src1 + imm, len))`
  unfoldable pub load_rd : ℕ → (ℕ → ℕ) → Decode → Operands → Cmd Machine Decode
  load_rd len f s o = do v ← mem_read env (add_word o.src1 o.imm) len; set_rd (f v) s o

  -- `Mw(src1 + imm, len, src2)`
  unfoldable pub store_src2 : ℕ → Decode → Operands → Cmd Machine Decode
  store_src2 len s o = do mem_write env (add_word o.src1 o.imm) len o.src2; pure s

  unfoldable pub csr_body : Cmd Machine (Unit {0}) → Decode → Cmd Machine Decode
  csr_body access s = do access; pure s
