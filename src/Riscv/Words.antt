-- ===== src/Riscv/Words.antt =====
-- The results of the instructions that compute are words.
use bailuwan.Base.Int.{◌*ℤ◌}
use mathlib.Core.Path.{subst}
use native.Mathlib.Nat.{div-le_self, div-add-mod}
use bailuwan.Base.{
  none≢some, ◌-◌, ◌*◌, bit_or, inr, bit_xor, inl, ltb, some_cancel, ◌==◌, ◌+◌, Bool-cases, bit_and,
  ◌%◌, ◌/◌, Bool, ℕ, ◌^◌, ◌<◌, ◌≡◌, some, arith,
}
use bailuwan.Base.Bits.{bit_and-lt, bit_or-lt, bit_xor-lt}
use bailuwan.Riscv.Word.{
  word, add_word, sub_word, of_int-lt, shift_left, shift_right, shift_right_signed, asr, signed,
  less_signed,
}
use bailuwan.Riscv.Alu.{
  rem_int, quot_int, overflows, riscv_div, riscv_divu, riscv_rem, riscv_remu, riscv_mul, riscv_mulh,
  riscv_mulhsu, riscv_mulhu,
}
use bailuwan.Riscv.Lines.{
  Name, add, addi, and_, andi, auipc, div, divu, lui, mul, mulh, mulhsu, mulhu, or_, ori, rem, remu,
  sll, slli, slt, slti, sltiu, sltu, sra, srai, srl, srli, sub, xor_, xori,
}
use bailuwan.Riscv.Operand.{Operands}
use bailuwan.Riscv.Body.{compute, flag}

pub record AreWords (o : Operands) : Type 0 where
  pub src1_word : o.src1 < 2 ^ 32
  pub src2_word : o.src2 < 2 ^ 32
  pub imm_word : o.imm < 2 ^ 32

flag-lt : (b : Bool) → flag b < 2 ^ 32
flag-lt b = ground arith

quotient-lt : (a d : ℕ) → a < 2 ^ 32 → a / d < 2 ^ 32
quotient-lt a d h = omega (arith, div-le_self a d)

remainder-lt : (a d : ℕ) → a < 2 ^ 32 → a % d < 2 ^ 32
remainder-lt a d h = omega (arith, div-add-mod a d)

shift_right-lt : (a k : ℕ) → a < 2 ^ 32 → shift_right a k < 2 ^ 32
unfolding shift_right
shift_right-lt a k h = quotient-lt a (2 ^ bit_and k 0x1f) h

riscv_div-lt : (a b : ℕ) → a < 2 ^ 32 → riscv_div a b < 2 ^ 32
unfolding riscv_div
riscv_div-lt a b h = elim (Bool-cases (b == 0)) [
  | inl zero_divisor ↦ rw zero_divisor (omega arith)
  | inr divides ↦ elim (Bool-cases (overflows a b)) [
    | inl over ↦ rw (divides, over) h
    | inr fits ↦ rw (divides, fits) (of_int-lt (quot_int (signed a) (signed b)))
  ]
]

riscv_divu-lt : (a b : ℕ) → a < 2 ^ 32 → riscv_divu a b < 2 ^ 32
unfolding riscv_divu
riscv_divu-lt a b h = ground (arith, quotient-lt a b h)

riscv_rem-lt : (a b : ℕ) → a < 2 ^ 32 → riscv_rem a b < 2 ^ 32
unfolding riscv_rem
riscv_rem-lt a b h = elim (Bool-cases (b == 0)) [
  | inl zero_divisor ↦ rw zero_divisor h
  | inr divides ↦ elim (Bool-cases (overflows a b)) [
    | inl over ↦ rw (divides, over) (omega arith)
    | inr fits ↦ rw (divides, fits) (of_int-lt (rem_int (signed a) (signed b)))
  ]
]

riscv_remu-lt : (a b : ℕ) → a < 2 ^ 32 → riscv_remu a b < 2 ^ 32
unfolding riscv_remu
riscv_remu-lt a b h = ground (arith, remainder-lt a b h)

word-lt : (n : ℕ) → word n < 2 ^ 32
word-lt n = omega arith

computed : (v : ℕ) {w : ℕ} → v < 2 ^ 32 → some v ≡ some w → w < 2 ^ 32
computed v h e = subst (λ (t : ℕ). t < 2 ^ 32) (some_cancel e) h

pub compute-lt :
    (n : Name) (pc v : ℕ) (o : Operands) → AreWords o → compute n pc o ≡ some v → v < 2 ^ 32
unfolding compute add_word sub_word shift_left shift_right_signed riscv_mul riscv_mulh riscv_mulhsu
    riscv_mulhu
compute-lt lui pc v o w e = computed o.imm w.imm_word e
compute-lt auipc pc v o w e = computed (word (pc + o.imm)) (word-lt (pc + o.imm)) e
compute-lt addi pc v o w e = computed (word (o.src1 + o.imm)) (word-lt (o.src1 + o.imm)) e
compute-lt slti pc v o w e =
    computed (flag (less_signed o.src1 o.imm)) (flag-lt (less_signed o.src1 o.imm)) e
compute-lt sltiu pc v o w e = computed (flag (ltb o.src1 o.imm)) (flag-lt (ltb o.src1 o.imm)) e
compute-lt xori pc v o w e =
    computed (bit_xor o.src1 o.imm) (bit_xor-lt 32 o.src1 o.imm w.src1_word w.imm_word) e
compute-lt ori pc v o w e =
    computed (bit_or o.src1 o.imm) (bit_or-lt 32 o.src1 o.imm w.src1_word w.imm_word) e
compute-lt andi pc v o w e =
    computed (bit_and o.src1 o.imm) (bit_and-lt 32 o.src1 o.imm w.src1_word) e
compute-lt slli pc v o w e =
    computed (shift_left o.src1 o.imm) (word-lt (o.src1 * 2 ^ bit_and o.imm 0x1f)) e
compute-lt srli pc v o w e =
    computed (shift_right o.src1 o.imm) (shift_right-lt o.src1 o.imm w.src1_word) e
compute-lt srai pc v o w e =
    computed (shift_right_signed o.src1 o.imm)
      (of_int-lt (asr (signed o.src1) (bit_and o.imm 0x1f))) e
compute-lt add pc v o w e = computed (word (o.src1 + o.src2)) (word-lt (o.src1 + o.src2)) e
compute-lt sub pc v o w e = computed (sub_word o.src1 o.src2) (word-lt (o.src1 + 2 ^ 32 - o.src2)) e
compute-lt sll pc v o w e =
    computed (shift_left o.src1 o.src2) (word-lt (o.src1 * 2 ^ bit_and o.src2 0x1f)) e
compute-lt slt pc v o w e =
    computed (flag (less_signed o.src1 o.src2)) (flag-lt (less_signed o.src1 o.src2)) e
compute-lt sltu pc v o w e = computed (flag (ltb o.src1 o.src2)) (flag-lt (ltb o.src1 o.src2)) e
compute-lt xor_ pc v o w e =
    computed (bit_xor o.src1 o.src2) (bit_xor-lt 32 o.src1 o.src2 w.src1_word w.src2_word) e
compute-lt srl pc v o w e =
    computed (shift_right o.src1 o.src2) (shift_right-lt o.src1 o.src2 w.src1_word) e
compute-lt sra pc v o w e =
    computed (shift_right_signed o.src1 o.src2)
      (of_int-lt (asr (signed o.src1) (bit_and o.src2 0x1f))) e
compute-lt or_ pc v o w e =
    computed (bit_or o.src1 o.src2) (bit_or-lt 32 o.src1 o.src2 w.src1_word w.src2_word) e
compute-lt and_ pc v o w e =
    computed (bit_and o.src1 o.src2) (bit_and-lt 32 o.src1 o.src2 w.src1_word) e
compute-lt mul pc v o w e =
    computed (riscv_mul o.src1 o.src2) (of_int-lt (signed o.src1 *ℤ signed o.src2)) e
compute-lt mulh pc v o w e =
    computed (riscv_mulh o.src1 o.src2) (of_int-lt (asr (signed o.src1 *ℤ signed o.src2) 32)) e
compute-lt mulhsu pc v o w e = computed (riscv_mulhsu o.src1 o.src2) (omega arith) e
compute-lt mulhu pc v o w e =
    computed (riscv_mulhu o.src1 o.src2) (word-lt (o.src1 * o.src2 % 2 ^ 64 / 2 ^ 32)) e
compute-lt div pc v o w e =
    computed (riscv_div o.src1 o.src2) (riscv_div-lt o.src1 o.src2 w.src1_word) e
compute-lt divu pc v o w e =
    computed (riscv_divu o.src1 o.src2) (riscv_divu-lt o.src1 o.src2 w.src1_word) e
compute-lt rem pc v o w e =
    computed (riscv_rem o.src1 o.src2) (riscv_rem-lt o.src1 o.src2 w.src1_word) e
compute-lt remu pc v o w e =
    computed (riscv_remu o.src1 o.src2) (riscv_remu-lt o.src1 o.src2 w.src1_word) e
compute-lt _ pc v o w e = absurd (none≢some e)
