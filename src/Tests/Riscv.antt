-- ===== src/Tests/Riscv.antt =====
-- The theorems on the interpreter at concrete instructions.
use bailuwan.Riscv.Zero.{decode_exec-zero}
use bailuwan.Riscv.Agreement.{isa_decode_branch-agrees, next_pc}
use bailuwan.Riscv.State.{Machine, gpr_read}
use bailuwan.Riscv.Immediate.{
  immediates_roundtrip, offsets_roundtrip, encode_u, encode_j, encode_s, encode_b, encode_i,
}
use bailuwan.Riscv.Predecode.{Branch, branch_body, isa_decode_branch}
use bailuwan.Riscv.Division.{riscv_div-riscv_rem}
use bailuwan.Riscv.Dispatch.{decode_exec-run_line}
use bailuwan.Riscv.Exec.{Decode, jump}
use bailuwan.Riscv.Step.{decode_exec-compute, set_reg, operands}
use bailuwan.Base.Int.{pos, ◌+ℤ◌, ◌*ℤ◌}
use bailuwan.Base.Run.{ok}
use bailuwan.Tests.Setup.{zeros, cpu, machine, at_start, env}
use bailuwan.Base.{codes, inl, inr, ◌⊎◌, ◌<◌, arith, refl, ℕ, some, false, true, get_elem?, ◌≡◌}
use bailuwan.Riscv.Operand.{imm_u, imm_j, imm_s, decode_operand, imm_b, imm_i, fields}
use bailuwan.Riscv.Body.{condition, run_line, decode_exec, compute}
use bailuwan.Decode.Match.{pattern_decode-agrees}
use bailuwan.Decode.Digits.{agrees}
use bailuwan.Riscv.Lines.{inv_line, branch_lines, type_i, line, Kind, addi, Name, exec_lines}
use bailuwan.Riscv.Word.{shl64, sext, bits, add_word, signed}
use bailuwan.Decode.Pattern.{first_match, passes, pattern_decode, Line, Test}
use bailuwan.Riscv.Alu.{is_negative, magnitude, riscv_rem, riscv_div, overflows}
use bailuwan.Decode.Lines.{is_pattern-IsPattern, is_pattern}

system_pattern : is_pattern (codes "000 ????? 11100 11") ≡ true
unfolding is_pattern
system_pattern = refl

no_overflow : overflows 0xffff_fff9 2 ≡ false
unfolding overflows
no_overflow = refl

pattern_decode-agrees_example :
    (t : Test) × (pattern_decode (codes "000 ????? 11100 11") ≡ ok t)
    × ((inst : ℕ) → passes inst t ≡ agrees (codes "000 ????? 11100 11") inst)
pattern_decode-agrees_example =
    pattern_decode-agrees (codes "000 ????? 11100 11") (is_pattern-IsPattern _ system_pattern)
      (omega arith)

-- -7 / 2
riscv_div-riscv_rem_example :
    (signed 0xffff_fff9
      ≡ signed (riscv_div 0xffff_fff9 2) *ℤ signed 2 +ℤ signed (riscv_rem 0xffff_fff9 2))
    × (magnitude (signed (riscv_rem 0xffff_fff9 2)) < magnitude (signed 2))
    × ((signed (riscv_rem 0xffff_fff9 2) ≡ pos 0)
        ⊎ (is_negative (signed (riscv_rem 0xffff_fff9 2)) ≡ is_negative (signed 0xffff_fff9)))
riscv_div-riscv_rem_example =
    riscv_div-riscv_rem 0xffff_fff9 2 (omega arith) (omega arith) (omega arith) no_overflow

-- addi x1, x0, 5
abbrev addi_line : Line Name Kind
addi_line = line "??????? ????? ????? 000 ????? 00100 11" addi type_i

addi_in_table : get_elem? exec_lines 18 ≡ some addi_line
unfolding exec_lines
addi_in_table = refl

addi_agrees : agrees addi_line.pattern 0x0050_0093 ≡ true
addi_agrees = refl

addi_computes : compute addi 0x8000_0000 (operands 0x0050_0093 type_i cpu) ≡ some 5
unfolding compute fields imm_i add_word bits sext
addi_computes = refl

decode_exec-run_line_example :
    decode_exec env (at_start 0x0050_0093) machine
    ≡ run_line env addi_line (jump 0x8000_0004 (at_start 0x0050_0093)) machine
decode_exec-run_line_example =
    decode_exec-run_line env 18 addi_line (at_start 0x0050_0093) machine addi_in_table addi_agrees

decode_exec-compute_example :
    decode_exec env (at_start 0x0050_0093) machine
    ≡ ok (
      jump 0x8000_0004 (at_start 0x0050_0093),
      record machine { cpu = record cpu { gpr = set_reg zeros (bits 0x0050_0093 11 7) 5 } },
    )
decode_exec-compute_example =
    decode_exec-compute env 18 5 addi_line (at_start 0x0050_0093) machine (omega arith)
      addi_in_table addi_agrees addi_computes

-- beq x0, x0, 8
abbrev forward : Branch
forward = record { target_addr = 0x8000_0008; is_uncond = false; taken = true }

forward_decoded : isa_decode_branch env 0x8000_0000 0x0000_0463 machine ≡ ok (some forward, machine)
unfolding isa_decode_branch first_match branch_lines inv_line decode_operand fields gpr_read imm_b
    branch_body condition add_word bits sext shl64
forward_decoded = refl

isa_decode_branch-agrees_example :
    (machine ≡ machine)
    × ((s' : Decode) × (m' : Machine) × (decode_exec env (at_start 0x0000_0463) machine
          ≡ ok (s', m'))
        × (s'.dnpc ≡ next_pc forward (at_start 0x0000_0463)))
isa_decode_branch-agrees_example =
    isa_decode_branch-agrees env (omega arith) forward (at_start 0x0000_0463) machine machine
      forward_decoded

immediates_roundtrip_example :
    (imm_i (encode_i 0xffff_fff8 0x0_8093) ≡ 0xffff_fff8)
    × (imm_s (encode_s 0xffff_fff8 0x215 0x23) ≡ 0xffff_fff8)
    × (imm_u (encode_u 0x1234_5000 0x0b7) ≡ 0x1234_5000)
immediates_roundtrip_example =
    immediates_roundtrip 0xffff_fff8 0x1234_5000 0x0_8093 0x0b7 0x215 0x23 (inr (omega arith))
      (omega arith) refl (omega arith) (omega arith) (omega arith) (omega arith)

offsets_roundtrip_example :
    (imm_b (encode_b 0xffff_fff8 0x215 0x63) ≡ 0xffff_fff8) × (imm_j (encode_j 0x800 0x0ef) ≡ 0x800)
offsets_roundtrip_example =
    offsets_roundtrip 0xffff_fff8 0x800 0x0ef 0x215 0x63 (inr (omega arith)) refl
      (inl (omega arith)) refl (omega arith) (omega arith) (omega arith)

decode_exec-zero_example : set_reg zeros (bits 0x0050_0093 11 7) 5 0 ≡ 0
decode_exec-zero_example =
    decode_exec-zero env (at_start 0x0050_0093) (jump 0x8000_0004 (at_start 0x0050_0093)) machine
      (record machine { cpu = record cpu { gpr = set_reg zeros (bits 0x0050_0093 11 7) 5 } })
      (decode_exec-compute env 18 5 addi_line (at_start 0x0050_0093) machine (omega arith)
        addi_in_table addi_agrees addi_computes)
