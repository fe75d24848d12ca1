-- ===== src/Riscv/Step.antt =====
-- Lines run to the end where every register of the instruction format exists.
use bailuwan.Riscv.Dispatch.{decode_exec-run_line}
use bailuwan.Riscv.Body.{body, run_line, decode_exec, compute}
use bailuwan.Decode.Digits.{agrees}
use bailuwan.Base.Run.{ok}
use bailuwan.Riscv.Exec.{set_rd, jump, Decode}
use bailuwan.Riscv.Word.{bits, bits-field}
use bailuwan.Decode.Pattern.{Line}
use bailuwan.Riscv.State.{update, Machine, Cpu, gpr_write, gpr_read}
use bailuwan.Riscv.Lines.{
  type_n, type_csr_imm, type_csr, type_j, type_u, type_b, type_s, type_i, type_r, exec_lines, Name,
  Kind,
}
use bailuwan.Riscv.Operand.{
  imm_csr, csr_addr, imm_j, imm_u, imm_b, imm_s, imm_i, Operands, decode_operand, fields,
}
use bailuwan.Base.{
  ◌∙◌, refl, fun_ext, true, some, lt→ltb, get_elem?, ◌≡◌, arith, ◌==◌, if◌then◌else◌, ◌<◌, ◌≤◌, ℕ,
}
use bailuwan.Memory.Bus.{Env}

-- The build without CONFIG_RVE.
abbrev pub HasAllRegs : Env → Type 0
HasAllRegs env = 32 ≤ env.nr_gpr

-- What `decode_operand` reads, as a function of the state.
abbrev pub operands : ℕ → Kind → Cpu → Operands
operands i type_r c = record (fields i) { src1 = c.gpr (fields i).rs1; src2 = c.gpr (fields i).rs2 }
operands i type_i c = record (fields i) { src1 = c.gpr (fields i).rs1; imm = imm_i i }
operands i type_s c = record (fields i) {
  src1 = c.gpr (fields i).rs1;
  src2 = c.gpr (fields i).rs2;
  imm = imm_s i;
}
operands i type_b c = record (fields i) {
  src1 = c.gpr (fields i).rs1;
  src2 = c.gpr (fields i).rs2;
  imm = imm_b i;
}
operands i type_u c = record (fields i) { imm = imm_u i }
operands i type_j c = record (fields i) { imm = imm_j i }
operands i type_csr c = record (fields i) { src1 = c.gpr (fields i).rs1; csr = csr_addr i }
operands i type_csr_imm c = record (fields i) { imm = imm_csr i; csr = csr_addr i }
operands i type_n c = fields i

pub fields-lt : (i : ℕ) → ((fields i).rd < 32) × ((fields i).rs1 < 32) × ((fields i).rs2 < 32)
unfolding fields
fields-lt i = (
  rw (bits-field i 11 7) (omega arith),
  rw (bits-field i 19 15) (omega arith),
  rw (bits-field i 24 20) (omega arith),
)

module _ (env : Env) (all : HasAllRegs env) where
  pub gpr_read-ok : (idx : ℕ) (m : Machine) → idx < 32 → gpr_read env idx m ≡ ok (m.cpu.gpr idx, m)
  unfolding gpr_read
  gpr_read-ok idx m h = rw (lt→ltb idx env.nr_gpr (omega arith))

  pub gpr_write-ok :
      (idx v : ℕ) (m : Machine)
      → idx < 32
      → gpr_write env idx v m
        ≡ ok (tt, record m { cpu = record (m.cpu) { gpr = update m.cpu.gpr idx v } })
  unfolding gpr_write
  gpr_write-ok idx v m h = rw (lt→ltb idx env.nr_gpr (omega arith))

  pub decode_operand-operands :
      (i : ℕ) (k : Kind) (m : Machine) → decode_operand env i k m ≡ ok (operands i k m.cpu, m)
  unfolding decode_operand
  decode_operand-operands i type_r m =
      rw
        (gpr_read-ok (fields i).rs1 m (fields-lt i).1, gpr_read-ok (fields i).rs2 m (fields-lt i).2)
  decode_operand-operands i type_i m = rw (gpr_read-ok (fields i).rs1 m (fields-lt i).1)
  decode_operand-operands i type_s m =
      rw
        (gpr_read-ok (fields i).rs1 m (fields-lt i).1, gpr_read-ok (fields i).rs2 m (fields-lt i).2)
  decode_operand-operands i type_b m =
      rw
        (gpr_read-ok (fields i).rs1 m (fields-lt i).1, gpr_read-ok (fields i).rs2 m (fields-lt i).2)
  decode_operand-operands i type_u m = refl
  decode_operand-operands i type_j m = refl
  decode_operand-operands i type_csr m = rw (gpr_read-ok (fields i).rs1 m (fields-lt i).1)
  decode_operand-operands i type_csr_imm m = refl
  decode_operand-operands i type_n m = refl

-- The registers after `R(rd) = v` and `R(0) = 0`.
unfoldable pub set_reg : (ℕ → ℕ) → ℕ → ℕ → ℕ → ℕ
set_reg gpr rd v j = if j == 0 then 0 else if j == rd then v else gpr j

two_writes : (gpr : ℕ → ℕ) (rd v : ℕ) → update (update gpr rd v) 0 0 ≡ set_reg gpr rd v
unfolding update set_reg
two_writes gpr rd v = fun_ext (λ j. ground arith)

pub operands-rd : (i : ℕ) (k : Kind) (c : Cpu) → (operands i k c).rd ≡ bits i 11 7
unfolding fields
operands-rd i type_r c = refl
operands-rd i _ c = refl

unfoldable pub with_reg : Machine → ℕ → ℕ → Machine
with_reg m rd v = record m { cpu = record (m.cpu) { gpr = update m.cpu.gpr rd v } }

module _ (env : Env) (all : HasAllRegs env) where
  pub set_rd-ok :
      (v : ℕ) (s : Decode) (o : Operands) (m : Machine)
      → o.rd < 32
      → set_rd env v s o m ≡ ok (s, with_reg m o.rd v)
  unfolding set_rd with_reg
  set_rd-ok v s o m h = rw (gpr_write-ok env all o.rd v m h)

  body-compute :
      (v : ℕ) (n : Name) (s : Decode) (o : Operands) (m : Machine)
      → o.rd < 32
      → compute n s.pc o ≡ some v
      → body env n s o m ≡ ok (s, with_reg m o.rd v)
  unfolding body
  body-compute v n s o m h e = rw (e, body) (set_rd-ok v s o m h)

  run_line-compute :
      (v : ℕ) (l : Line Name Kind) (s : Decode) (m : Machine)
      → compute l.name s.pc (operands s.inst l.kind m.cpu) ≡ some v
      → run_line env l s m
        ≡ ok (s, record m { cpu = record (m.cpu) { gpr = set_reg m.cpu.gpr (bits s.inst 11 7) v } })
  unfolding run_line with_reg
  run_line-compute v l s m e =
      let o = operands s.inst l.kind m.cpu in
      let rd = operands-rd s.inst l.kind m.cpu in
      let small : o.rd < 32 = rw (rd, ← operands-rd s.inst type_n m.cpu) (fields-lt s.inst).0 in
      rw (
        decode_operand-operands env all s.inst l.kind m,
        body-compute v l.name s o m small e,
        gpr_write-ok env all 0 0 (with_reg m o.rd v) (omega arith),
        two_writes m.cpu.gpr o.rd v,
        rd,
      )

-- A computational instruction writes its result to `rd`, keeps register 0 at 0, goes on to the next
-- instruction and changes nothing else.
pub decode_exec-compute :
    (env : Env) (i v : ℕ) (l : Line Name Kind) (s : Decode) (m : Machine)
    → HasAllRegs env
    → get_elem? exec_lines i ≡ some l
    → agrees l.pattern s.inst ≡ true
    → compute l.name s.pc (operands s.inst l.kind m.cpu) ≡ some v
    → decode_exec env s m
      ≡ ok (
        jump s.snpc s,
        record m { cpu = record (m.cpu) { gpr = set_reg m.cpu.gpr (bits s.inst 11 7) v } },
      )
decode_exec-compute env i v l s m all at a e =
    decode_exec-run_line env i l s m at a ∙ run_line-compute env all v l (jump s.snpc s) m e
