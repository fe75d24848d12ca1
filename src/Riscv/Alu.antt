-- ===== src/Riscv/Alu.antt =====
-- nemu/src/isa/riscv32/inst.c: division, remainder and the multiplications.
use bailuwan.Riscv.Word.{signed, word, asr, of_int, sext}
use bailuwan.Base.{
  zero, ◌&&◌, ◌-◌, true, ◌*◌, ◌/◌, ◌^◌, not, false, suc, ◌==◌, ◌%◌, if◌then◌else◌, ℕ, Bool,
}
use bailuwan.Base.Int.{negsuc, pos, ◌*ℤ◌, ℤ}

-- `/` and `%` of C on a signed type, which round towards zero; `b` is not 0.
abbrev pub magnitude : ℤ → ℕ
magnitude (pos n) = n
magnitude (negsuc n) = suc n

abbrev pub is_negative : ℤ → Bool
is_negative (pos n) = false
is_negative (negsuc n) = true

-- The integer of magnitude `n`, negated if the sign says so.
abbrev pub with_sign : Bool → ℕ → ℤ
with_sign false n = pos n
with_sign true zero = pos 0
with_sign true (suc n) = negsuc n

unfoldable pub quot_int : ℤ → ℤ → ℤ
quot_int a b =
    with_sign (if is_negative a then not (is_negative b) else is_negative b)
      (magnitude a / magnitude b)

unfoldable pub rem_int : ℤ → ℤ → ℤ
rem_int a b = with_sign (is_negative a) (magnitude a % magnitude b)

-- `(sword_t)src1 == SWORD_MIN && (sword_t)src2 == -1`, on the words that stand for the two.
unfoldable pub overflows : ℕ → ℕ → Bool
overflows src1 src2 = src1 == 2 ^ 31 && src2 == 2 ^ 32 - 1

unfoldable pub riscv_div : ℕ → ℕ → ℕ
unfolding quot_int overflows
riscv_div src1 src2 =
    if src2 == 0
    then of_int (negsuc 0)
    else if overflows src1 src2
    then src1
    else of_int (quot_int (signed src1) (signed src2))

unfoldable pub riscv_divu : ℕ → ℕ → ℕ
riscv_divu src1 src2 = if src2 == 0 then of_int (negsuc 0) else src1 / src2

unfoldable pub riscv_rem : ℕ → ℕ → ℕ
unfolding rem_int overflows
riscv_rem src1 src2 =
    if src2 == 0
    then src1
    else if overflows src1 src2
    then 0
    else of_int (rem_int (signed src1) (signed src2))

unfoldable pub riscv_remu : ℕ → ℕ → ℕ
riscv_remu src1 src2 = if src2 == 0 then src1 else src1 % src2

-- The bodies of mul, mulh, mulhsu and mulhu. A product of two `int64_t` that hold words fits.
unfoldable pub riscv_mul : ℕ → ℕ → ℕ
unfolding ◌*ℤ◌
riscv_mul src1 src2 = of_int (signed src1 *ℤ signed src2)

unfoldable pub riscv_mulh : ℕ → ℕ → ℕ
unfolding ◌*ℤ◌ asr
riscv_mulh src1 src2 = of_int (asr (signed src1 *ℤ signed src2) 32)

-- `(int64_t)(sword_t)src1 * (uint64_t)src2`: the first operand becomes a `uint64_t`.
unfoldable pub riscv_mulhsu : ℕ → ℕ → ℕ
unfolding sext
riscv_mulhsu src1 src2 = word (sext src1 32 * src2 % 2 ^ 64 / 2 ^ 32)

unfoldable pub riscv_mulhu : ℕ → ℕ → ℕ
riscv_mulhu src1 src2 = word (src1 * src2 % 2 ^ 64 / 2 ^ 32)
