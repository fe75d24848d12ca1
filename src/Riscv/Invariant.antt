-- ===== src/Riscv/Invariant.antt =====
-- Every instruction keeps words in the registers and bytes in the memory.
use bailuwan.Riscv.Words.{compute-lt, AreWords}
use bailuwan.Base.Keeps.{Keeps-bind, Keeps-pure}
use bailuwan.Memory.BusBytes.{CallsKeepBytes}
use bailuwan.Base.{
  refl, ◌-◌, ℕ, ◌+◌, ◌^◌, ◌<◌, ◌≡◌, Bool, true, false, arith, Option, some, none, sym, ◌∙◌, [], ◌∷◌,
  ◌++◌,
}
use bailuwan.Base.Bits.{bit_and-lt}
use bailuwan.Base.Run.{Run, ok, Cmd, pure, ◌>>=◌, ◌>>◌, stop≢ok}
use bailuwan.Memory.Bus.{Env}
use bailuwan.Decode.Pattern.{Line}
use bailuwan.Decode.Lines.{find_line}
use bailuwan.Riscv.Dispatch.{decode_exec-find_line}
use bailuwan.Riscv.Word.{word, add_word}
use bailuwan.Riscv.Typed.{
  IsMachine, IsWord, Nothing, gpr_read-IsMachine, gpr_write-IsMachine, mem_read-IsMachine,
  set_nemu_state-IsMachine,
}
use bailuwan.Riscv.Typing.{
  IsDecode, Typed, decode_operand-AreWords, csrrwi-Typed, csrrsi-Typed, csrrci-Typed, csrrw-Typed,
  csrrs-Typed, csrrc-Typed, ecall-Typed, mret-Typed, then_decode, set_rd-Typed, invalid_inst-Typed,
  load_rd-Typed, store_src2-Typed,
}
use bailuwan.Riscv.State.{Machine, gpr_read, gpr_write, mem_read, set_nemu_state, nemu_end}
use bailuwan.Riscv.Operand.{Operands, decode_operand}
use bailuwan.Riscv.Exec.{
  Decode, set_rd, csr_body, jump, branch_to, even_target, riscv_ecall, riscv_mret, riscv_csrrw,
  riscv_csrrs, riscv_csrrc, riscv_csrrwi, riscv_csrrsi, riscv_csrrci, invalid_inst,
}
use bailuwan.Riscv.Body.{
  compute, control, body, run_line, decode_exec, isa_exec_once, sext_word, condition,
}
use bailuwan.Riscv.Lines.{
  jal, jalr, beq, bne, blt, bge, bltu, bgeu, lb, lh, lw, lbu, lhu, sb, sh, sw, fence, ecall, ebreak,
  csrrw, csrrs, csrrc, csrrwi, csrrsi, csrrci, mret, fence_i, Name, Kind, exec_lines, inv_line,
}

jump-IsDecode : (target : ℕ) (s : Decode) → target < 2 ^ 32 → IsDecode s → IsDecode (jump target s)
jump-IsDecode target s h w = record { pc_word = w.pc_word; snpc_word = w.snpc_word; dnpc_word = h }

branch-IsDecode :
    (taken : Bool) (target : ℕ) (s : Decode)
    → target < 2 ^ 32
    → IsDecode s
    → IsDecode (branch_to taken target s)
branch-IsDecode true target s h w = jump-IsDecode target s h w
branch-IsDecode false target s h w = w

add_word-lt : (a b : ℕ) → add_word a b < 2 ^ 32
unfolding add_word
add_word-lt a b = omega arith

sext_word-lt : (len v : ℕ) → sext_word len v < 2 ^ 32
unfolding sext_word
sext_word-lt len v = omega arith

even_target-lt : (a : ℕ) → a < 2 ^ 32 → even_target a < 2 ^ 32
unfolding even_target
even_target-lt a h = bit_and-lt 32 a (2 ^ 32 - 2) h

module _ (env : Env) (calls : CallsKeepBytes env) where
  branch-Typed :
      (n : Name) (s : Decode) (o : Operands)
      → IsDecode s
      → Typed IsDecode (pure (branch_to (condition n o.src1 o.src2) (add_word s.pc o.imm) s))
  branch-Typed n s o w =
      Keeps-pure IsMachine IsDecode (branch_to (condition n o.src1 o.src2) (add_word s.pc o.imm) s)
        (branch-IsDecode (condition n o.src1 o.src2) (add_word s.pc o.imm) s
          (add_word-lt s.pc o.imm) w)

  trap-Typed :
      (c : Cmd Machine ℕ) (s : Decode)
      → Typed IsWord c
      → IsDecode s
      → Typed IsDecode (do target ← c; pure (jump target s))
  trap-Typed c s typed w =
      Keeps-bind IsMachine IsWord IsDecode c (λ target. pure (jump target s)) typed
        λ target h. Keeps-pure IsMachine IsDecode (jump target s) (jump-IsDecode target s h w)

  csr_body-Typed :
      (c : Cmd Machine (Unit {0})) (s : Decode)
      → Typed Nothing c
      → IsDecode s
      → Typed IsDecode (csr_body env c s)
  unfolding csr_body
  csr_body-Typed c s typed w = then_decode env c s typed w

  invalid-Typed : (s : Decode) → IsDecode s → Typed IsDecode (do invalid_inst env s.pc; pure s)
  invalid-Typed s w =
      then_decode env (invalid_inst env s.pc) s (invalid_inst-Typed env calls s.pc) w

  control-Typed :
      (n : Name) (s : Decode) (o : Operands)
      → AreWords o
      → IsDecode s
      → Typed IsDecode (control env n s o)
  unfolding control
  control-Typed jal s o ow w =
      set_rd-Typed env (add_word s.pc 4) (jump (add_word s.pc o.imm) s) o (add_word-lt s.pc 4)
        (jump-IsDecode (add_word s.pc o.imm) s (add_word-lt s.pc o.imm) w)
  control-Typed jalr s o ow w =
      let target = even_target (add_word o.src1 o.imm) in
      set_rd-Typed env (add_word s.pc 4) (jump target s) o (add_word-lt s.pc 4) (
        jump-IsDecode target s (even_target-lt (add_word o.src1 o.imm) (add_word-lt o.src1 o.imm))
          w)
  control-Typed beq s o ow w = branch-Typed beq s o w
  control-Typed bne s o ow w = branch-Typed bne s o w
  control-Typed blt s o ow w = branch-Typed blt s o w
  control-Typed bge s o ow w = branch-Typed bge s o w
  control-Typed bltu s o ow w = branch-Typed bltu s o w
  control-Typed bgeu s o ow w = branch-Typed bgeu s o w
  control-Typed lb s o ow w =
      load_rd-Typed env calls 1 (sext_word 8) s o (λ v h. sext_word-lt 8 v) w
  control-Typed lh s o ow w =
      load_rd-Typed env calls 2 (sext_word 16) s o (λ v h. sext_word-lt 16 v) w
  control-Typed lw s o ow w = load_rd-Typed env calls 4 (λ v. v) s o (λ v h. h) w
  control-Typed lbu s o ow w = load_rd-Typed env calls 1 (λ v. v) s o (λ v h. h) w
  control-Typed lhu s o ow w = load_rd-Typed env calls 2 (λ v. v) s o (λ v h. h) w
  control-Typed sb s o ow w = store_src2-Typed env calls 1 s o w
  control-Typed sh s o ow w = store_src2-Typed env calls 2 s o w
  control-Typed sw s o ow w = store_src2-Typed env calls 4 s o w
  control-Typed fence s o ow w = λ m m' a typed h. absurd (stop≢ok h)
  control-Typed ecall s o ow w =
      trap-Typed (riscv_ecall env s.pc) s (ecall-Typed env s.pc w.pc_word) w
  control-Typed ebreak s o ow w =
      Keeps-bind IsMachine IsWord IsDecode (gpr_read env 10) _ (gpr_read-IsMachine env 10) λ code h.
        then_decode env (set_nemu_state nemu_end s.pc code) s
          (set_nemu_state-IsMachine nemu_end s.pc code) w
  control-Typed csrrw s o ow w =
      csr_body-Typed (riscv_csrrw env o.csr o.rs1 o.rd) s (csrrw-Typed env o.csr o.rs1 o.rd) w
  control-Typed csrrs s o ow w =
      csr_body-Typed (riscv_csrrs env o.csr o.rs1 o.rd) s (csrrs-Typed env o.csr o.rs1 o.rd) w
  control-Typed csrrc s o ow w =
      csr_body-Typed (riscv_csrrc env o.csr o.rs1 o.rd) s (csrrc-Typed env o.csr o.rs1 o.rd) w
  control-Typed csrrwi s o ow w =
      csr_body-Typed (riscv_csrrwi env o.csr o.imm o.rd) s
        (csrrwi-Typed env o.csr o.imm o.rd ow.imm_word) w
  control-Typed csrrsi s o ow w =
      csr_body-Typed (riscv_csrrsi env o.csr o.imm o.rd) s
        (csrrsi-Typed env o.csr o.imm o.rd ow.imm_word) w
  control-Typed csrrci s o ow w =
      csr_body-Typed (riscv_csrrci env o.csr o.imm o.rd) s (csrrci-Typed env o.csr o.imm o.rd) w
  control-Typed mret s o ow w = trap-Typed (riscv_mret env) s (mret-Typed env) w
  control-Typed fence_i s o ow w = Keeps-pure IsMachine IsDecode s w
  control-Typed _ s o ow w = invalid-Typed s w

  body-Typed :
      (n : Name) (s : Decode) (o : Operands)
      → AreWords o
      → IsDecode s
      → Typed IsDecode (body env n s o)
  unfolding body
  body-Typed n s o ow w = on_result (compute n s.pc o) (λ v e. compute-lt n s.pc v o ow e)
    where
      on_result :
          (r : Option ℕ)
          → ((v : ℕ) → r ≡ some v → v < 2 ^ 32)
          → Typed IsDecode (elim r [ some v ↦ set_rd env v s o | none ↦ control env n s o ])
      on_result none words = control-Typed n s o ow w
      on_result (some v) words = set_rd-Typed env v s o (words v refl) w

  reset-Typed : (s : Decode) → IsDecode s → Typed IsDecode (do gpr_write env 0 0; pure s)
  reset-Typed s w =
      then_decode env (gpr_write env 0 0) s (gpr_write-IsMachine env 0 0 (omega arith)) w

  run_line-Typed :
      (l : Line Name Kind) (s : Decode) → IsDecode s → Typed IsDecode (run_line env l s)
  unfolding run_line
  run_line-Typed l s w =
      Keeps-bind IsMachine AreWords IsDecode (decode_operand env s.inst l.kind) _
        (decode_operand-AreWords env s.inst l.kind)
        λ o ow.
          Keeps-bind IsMachine IsDecode IsDecode (body env l.name s o) _
            (body-Typed l.name s o ow w) λ s' w'. reset-Typed s' w'

  pub decode_exec-Typed : (s : Decode) → IsDecode s → Typed IsDecode (decode_exec env s)
  decode_exec-Typed s w m m' s' typed h =
      on_line (find_line (exec_lines ++ inv_line ∷ []) s.inst)
        (sym (decode_exec-find_line env s m) ∙ h)
    where
      on_line :
          (found : Option (Line Name Kind))
          → ◌≡◌ {A = Run (Decode × Machine)}
              (elim found [
                | some l ↦ run_line env l (jump s.snpc s) m
                | none ↦ (do gpr_write env 0 0; pure (jump s.snpc s)) m
              ])
              (ok (s', m'))
          → IsMachine m' × IsDecode s'
      on_line none e =
          reset-Typed (jump s.snpc s) (jump-IsDecode s.snpc s w.snpc_word w) m m' s' typed e
      on_line (some l) e =
          run_line-Typed l (jump s.snpc s) (jump-IsDecode s.snpc s w.snpc_word w) m m' s' typed e

  pub isa_exec_once-Typed : (s : Decode) → IsDecode s → Typed IsDecode (isa_exec_once env s)
  unfolding isa_exec_once
  isa_exec_once-Typed s w =
      Keeps-bind IsMachine IsWord IsDecode (mem_read env s.snpc 4) _
        (mem_read-IsMachine env calls s.snpc 4)
        λ inst h.
          decode_exec-Typed (record s { inst = inst; snpc = word (s.snpc + 4) })
            (record { pc_word = w.pc_word; snpc_word = omega arith; dnpc_word = w.dnpc_word })
