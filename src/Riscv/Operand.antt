-- ===== src/Riscv/Operand.antt =====
-- nemu/src/isa/riscv32/inst.c: `decode_operand`.
use bailuwan.Base.Run.{pure, ◌>>=◌, Cmd}
use bailuwan.Riscv.Lines.{
  type_n, type_csr_imm, type_csr, type_j, type_u, type_b, type_s, type_i, type_r, Kind,
}
use bailuwan.Riscv.State.{Machine, gpr_read}
use bailuwan.Memory.Bus.{Env}
use bailuwan.Riscv.Word.{shl64, word, sext, bits}
use bailuwan.Base.{bit_or, ℕ}

-- The variables that INSTPAT_MATCH declares.
pub record Operands : Type 0 where
  pub rd : ℕ
  pub rs1 : ℕ
  pub rs2 : ℕ
  pub csr : ℕ
  pub src1 : ℕ
  pub src2 : ℕ
  pub imm : ℕ

unfoldable pub imm_i : ℕ → ℕ
imm_i i = word (sext (bits i 31 20) 12)

unfoldable pub imm_u : ℕ → ℕ
imm_u i = word (shl64 (sext (bits i 31 12) 20) 12)

unfoldable pub imm_s : ℕ → ℕ
imm_s i = word (bit_or (shl64 (sext (bits i 31 25) 7) 5) (bits i 11 7))

unfoldable pub imm_b : ℕ → ℕ
imm_b i = word (
    bit_or
      (bit_or (bit_or (shl64 (sext (bits i 31 31) 1) 12) (shl64 (bits i 7 7) 11))
        (shl64 (bits i 30 25) 5))
      (shl64 (bits i 11 8) 1))

unfoldable pub imm_j : ℕ → ℕ
imm_j i = word (
    bit_or
      (bit_or (bit_or (shl64 (sext (bits i 31 31) 1) 20) (shl64 (bits i 19 12) 12))
        (shl64 (bits i 20 20) 11))
      (shl64 (bits i 30 21) 1))

unfoldable pub imm_csr : ℕ → ℕ
imm_csr i = bits i 19 15

unfoldable pub csr_addr : ℕ → ℕ
csr_addr i = bits i 31 20

-- The register numbers, with the other variables at their initial values.
unfoldable pub fields : ℕ → Operands
unfolding bits
fields i = record {
  rd = bits i 11 7;
  rs1 = bits i 19 15;
  rs2 = bits i 24 20;
  csr = 0;
  src1 = 0;
  src2 = 0;
  imm = 0;
}

module _ (env : Env) where
  unfoldable pub decode_operand : ℕ → Kind → Cmd Machine Operands
  decode_operand i type_r = do
    src1 ← gpr_read env (fields i).rs1
    src2 ← gpr_read env (fields i).rs2
    pure (record (fields i) { src1 = src1; src2 = src2 })
  decode_operand i type_i = do
    src1 ← gpr_read env (fields i).rs1
    pure (record (fields i) { src1 = src1; imm = imm_i i })
  decode_operand i type_s = do
    src1 ← gpr_read env (fields i).rs1
    src2 ← gpr_read env (fields i).rs2
    pure (record (fields i) { src1 = src1; src2 = src2; imm = imm_s i })
  decode_operand i type_b = do
    src1 ← gpr_read env (fields i).rs1
    src2 ← gpr_read env (fields i).rs2
    pure (record (fields i) { src1 = src1; src2 = src2; imm = imm_b i })
  decode_operand i type_u = pure (record (fields i) { imm = imm_u i })
  decode_operand i type_j = pure (record (fields i) { imm = imm_j i })
  decode_operand i type_csr = do
    src1 ← gpr_read env (fields i).rs1
    pure (record (fields i) { src1 = src1; csr = csr_addr i })
  decode_operand i type_csr_imm = pure (record (fields i) { imm = imm_csr i; csr = csr_addr i })
  decode_operand i type_n = pure (fields i)
