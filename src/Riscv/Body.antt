-- ===== src/Riscv/Body.antt =====
-- nemu/src/isa/riscv32/inst.c: the bodies of the lines of `decode_exec`, and the function itself.
use bailuwan.Riscv.Lines.{
  lui, auipc, jal, jalr, beq, bne, blt, bge, bltu, bgeu, lb, lh, lw, lbu, lhu, sb, sh, sw, addi,
  slti, sltiu, xori, ori, andi, slli, srli, srai, add, sub, sll, slt, sltu, xor_, srl, sra, or_,
  and_, fence, ecall, ebreak, mul, mulh, mulhsu, mulhu, div, divu, rem, remu, csrrw, csrrs, csrrc,
  csrrwi, csrrsi, csrrci, mret, fence_i, Name, Kind, exec_lines, inv_line,
}
use bailuwan.Riscv.Alu.{
  riscv_remu, riscv_rem, riscv_divu, riscv_div, riscv_mulhu, riscv_mulhsu, riscv_mulh, riscv_mul,
}
use bailuwan.Base.Run.{panic, halt, pure, ◌>>◌, and_then, ◌>>=◌, Cmd}
use bailuwan.Riscv.State.{nemu_end, gpr_read, Machine, set_nemu_state, gpr_write, mem_read}
use bailuwan.Decode.Pattern.{Line, first_match}
use bailuwan.Riscv.Operand.{Operands, decode_operand}
use bailuwan.Riscv.Exec.{
  branch_to, invalid_inst, riscv_csrrci, riscv_csrrsi, riscv_csrrwi, riscv_csrrc, riscv_csrrs,
  riscv_csrrw, csr_body, riscv_mret, riscv_ecall, jump, store_src2, Decode, load_rd, set_rd,
  even_target,
}
use bailuwan.Memory.Bus.{Env}
use bailuwan.Base.{
  none, bit_and, bit_or, bit_xor, Option, [], ◌∷◌, ◌++◌, ◌+◌, some, false, ltb, not, ◌==◌,
  if◌then◌else◌, ℕ, Bool,
}
use bailuwan.Riscv.Word.{
  shift_right_signed, shift_right, shift_left, word, sub_word, less_signed, add_word, sext,
}

-- `Mr` of one and two bytes, extended by the sign.
unfoldable pub sext_word : ℕ → ℕ → ℕ
sext_word len v = word (sext v len)

abbrev pub flag : Bool → ℕ
flag b = if b then 1 else 0

-- The bodies `R(rd) = …` that compute a word from the operands and the address of the instruction.
unfoldable pub compute : Name → ℕ → Operands → Option ℕ
compute lui pc o = some o.imm
compute auipc pc o = some (add_word pc o.imm)
compute addi pc o = some (add_word o.src1 o.imm)
compute slti pc o = some (flag (less_signed o.src1 o.imm))
compute sltiu pc o = some (flag (ltb o.src1 o.imm))
compute xori pc o = some (bit_xor o.src1 o.imm)
compute ori pc o = some (bit_or o.src1 o.imm)
compute andi pc o = some (bit_and o.src1 o.imm)
compute slli pc o = some (shift_left o.src1 o.imm)
compute srli pc o = some (shift_right o.src1 o.imm)
compute srai pc o = some (shift_right_signed o.src1 o.imm)
compute add pc o = some (add_word o.src1 o.src2)
compute sub pc o = some (sub_word o.src1 o.src2)
compute sll pc o = some (shift_left o.src1 o.src2)
compute slt pc o = some (flag (less_signed o.src1 o.src2))
compute sltu pc o = some (flag (ltb o.src1 o.src2))
compute xor_ pc o = some (bit_xor o.src1 o.src2)
compute srl pc o = some (shift_right o.src1 o.src2)
compute sra pc o = some (shift_right_signed o.src1 o.src2)
compute or_ pc o = some (bit_or o.src1 o.src2)
compute and_ pc o = some (bit_and o.src1 o.src2)
compute mul pc o = some (riscv_mul o.src1 o.src2)
compute mulh pc o = some (riscv_mulh o.src1 o.src2)
compute mulhsu pc o = some (riscv_mulhsu o.src1 o.src2)
compute mulhu pc o = some (riscv_mulhu o.src1 o.src2)
compute div pc o = some (riscv_div o.src1 o.src2)
compute divu pc o = some (riscv_divu o.src1 o.src2)
compute rem pc o = some (riscv_rem o.src1 o.src2)
compute remu pc o = some (riscv_remu o.src1 o.src2)
compute _ pc o = none

-- The conditions of the conditional branches.
unfoldable pub condition : Name → ℕ → ℕ → Bool
condition beq a b = a == b
condition bne a b = not (a == b)
condition blt a b = less_signed a b
condition bge a b = not (less_signed a b)
condition bltu a b = ltb a b
condition bgeu a b = not (ltb a b)
condition _ a b = false

module _ (env : Env) where
  -- Every other body.
  unfoldable pub control : Name → Decode → Operands → Cmd Machine Decode
  control jal s o = set_rd env (add_word s.pc 4) (jump (add_word s.pc o.imm) s) o
  control jalr s o = set_rd env (add_word s.pc 4) (jump (even_target (add_word o.src1 o.imm)) s) o
  control beq s o = pure (branch_to (condition beq o.src1 o.src2) (add_word s.pc o.imm) s)
  control bne s o = pure (branch_to (condition bne o.src1 o.src2) (add_word s.pc o.imm) s)
  control blt s o = pure (branch_to (condition blt o.src1 o.src2) (add_word s.pc o.imm) s)
  control bge s o = pure (branch_to (condition bge o.src1 o.src2) (add_word s.pc o.imm) s)
  control bltu s o = pure (branch_to (condition bltu o.src1 o.src2) (add_word s.pc o.imm) s)
  control bgeu s o = pure (branch_to (condition bgeu o.src1 o.src2) (add_word s.pc o.imm) s)
  control lb s o = load_rd env 1 (sext_word 8) s o
  control lh s o = load_rd env 2 (sext_word 16) s o
  control lw s o = load_rd env 4 (λ v. v) s o
  control lbu s o = load_rd env 1 (λ v. v) s o
  control lhu s o = load_rd env 2 (λ v. v) s o
  control sb s o = store_src2 env 1 s o
  control sh s o = store_src2 env 2 s o
  control sw s o = store_src2 env 4 s o
  control fence s o = halt panic
  control ecall s o = do target ← riscv_ecall env s.pc; pure (jump target s)
  control ebreak s o = do code ← gpr_read env 10; set_nemu_state nemu_end s.pc code; pure s
  control csrrw s o = csr_body env (riscv_csrrw env o.csr o.rs1 o.rd) s
  control csrrs s o = csr_body env (riscv_csrrs env o.csr o.rs1 o.rd) s
  control csrrc s o = csr_body env (riscv_csrrc env o.csr o.rs1 o.rd) s
  control csrrwi s o = csr_body env (riscv_csrrwi env o.csr o.imm o.rd) s
  control csrrsi s o = csr_body env (riscv_csrrsi env o.csr o.imm o.rd) s
  control csrrci s o = csr_body env (riscv_csrrci env o.csr o.imm o.rd) s
  control mret s o = do target ← riscv_mret env; pure (jump target s)
  control fence_i s o = pure s
  control _ s o = do invalid_inst env s.pc; pure s

  -- The body of a line.
  unfoldable pub body : Name → Decode → Operands → Cmd Machine Decode
  body name s o = elim (compute name s.pc o) [ some v ↦ set_rd env v s o | none ↦ control name s o ]

  -- INSTPAT_MATCH, then `R(0) = 0`.
  unfoldable pub run_line : Line Name Kind → Decode → Cmd Machine Decode
  run_line l s = do
    o ← decode_operand env s.inst l.kind
    s' ← body l.name s o
    gpr_write env 0 0
    pure s'

  unfoldable pub decode_exec : Decode → Cmd Machine Decode
  decode_exec s m =
      let s0 = jump s.snpc s in
      and_then (first_match (exec_lines ++ inv_line ∷ []) s.inst)
        λ found. elim found [ some l ↦ run_line l s0 m | none ↦ (do gpr_write env 0 0; pure s0) m ]

  -- `inst_fetch` moves `snpc` behind the instruction.
  unfoldable pub isa_exec_once : Decode → Cmd Machine Decode
  isa_exec_once s = do
    inst ← mem_read env s.snpc 4
    decode_exec (record s { inst = inst; snpc = word (s.snpc + 4) })
