-- ===== src/Riscv/Immediate.antt =====
-- The immediates that `decode_operand` takes apart, against the instruction formats that an
-- assembler puts together.
use bailuwan.Base.Bits.{bit_or-add}
use bailuwan.Riscv.Operand.{imm_j, imm_b, imm_s, imm_u, imm_i}
use bailuwan.Riscv.Word.{bits-field, word, shl64, sext}
use bailuwan.Base.{
  ap, ◌≤◌, arith, ◌⊎◌, ◌+◌, ltb, ◌*◌, ◌-◌, if◌then◌else◌, ◌^◌, ◌≡◌, ◌/◌, ◌%◌, ◌<◌, ℕ,
}

-- A word that `bits` bits hold, read as a signed number.
abbrev pub InRange : ℕ → ℕ → Type 0
InRange n w = (w < 2 ^ (n - 1)) ⊎ ((2 ^ 32 - 2 ^ (n - 1) ≤ w) × (w < 2 ^ 32))

-- The formats: the immediate's bits at their places, and the other fields.
abbrev pub encode_i : (w low : ℕ) → ℕ
encode_i w low = w % 2 ^ 12 * 2 ^ 20 + low

abbrev pub encode_s : (w middle opcode : ℕ) → ℕ
encode_s w middle opcode = w / 2 ^ 5 % 2 ^ 7 * 2 ^ 25 + middle * 2 ^ 12 + w % 2 ^ 5 * 2 ^ 7 + opcode

abbrev pub encode_b : (w middle opcode : ℕ) → ℕ
encode_b w middle opcode =
    w / 2 ^ 12 % 2 * 2 ^ 31
    + w / 2 ^ 5 % 2 ^ 6 * 2 ^ 25
    + middle * 2 ^ 12
    + w / 2 % 2 ^ 4 * 2 ^ 8
    + w / 2 ^ 11 % 2 * 2 ^ 7
    + opcode

abbrev pub encode_u : (w low : ℕ) → ℕ
encode_u w low = w / 2 ^ 12 % 2 ^ 20 * 2 ^ 12 + low

abbrev pub encode_j : (w low : ℕ) → ℕ
encode_j w low =
    w / 2 ^ 20 % 2 * 2 ^ 31
    + w / 2 % 2 ^ 10 * 2 ^ 21
    + w / 2 ^ 11 % 2 * 2 ^ 20
    + w / 2 ^ 12 % 2 ^ 8 * 2 ^ 12
    + low

sext-twelve :
    (x : ℕ)
    → word (sext x 12)
      ≡ (if ltb (x % 2 ^ 12) (2 ^ 11) then x % 2 ^ 12 else x % 2 ^ 12 + (2 ^ 32 - 2 ^ 12))
unfolding sext
sext-twelve x = ground arith

imm_i-encode_i : (w low : ℕ) → InRange 12 w → low < 2 ^ 20 → imm_i (encode_i w low) ≡ w
unfolding imm_i
imm_i-encode_i w low range small =
    rw (bits-field (encode_i w low) 31 20, sext-twelve) (ground arith)

imm_u-encode_u :
    (w low : ℕ) → w < 2 ^ 32 → w % 2 ^ 12 ≡ 0 → low < 2 ^ 12 → imm_u (encode_u w low) ≡ w
unfolding imm_u sext shl64
imm_u-encode_u w low small page fits = rw (bits-field (encode_u w low) 31 12) (ground arith)

-- The `|` of the S, B and J formats adds up, since the parts have bits of their own.
imm_s-sum : (i : ℕ) → imm_s i ≡ word (shl64 (sext (i / 2 ^ 25 % 2 ^ 7) 7) 5 + i / 2 ^ 7 % 2 ^ 5)
unfolding imm_s
imm_s-sum i =
    rw (bits-field i 31 25, bits-field i 11 7)
      (ap (λ (t : ℕ). t % 2 ^ 32)
        (bit_or-add 5 (shl64 (sext (i / 2 ^ 25 % 2 ^ 7) 7) 5) (i / 2 ^ 7 % 2 ^ 5)
          (unfold shl64 in omega arith) (omega arith)))

imm_s-encode_s :
    (w middle opcode : ℕ)
    → InRange 12 w
    → middle < 2 ^ 13
    → opcode < 2 ^ 7
    → imm_s (encode_s w middle opcode) ≡ w
imm_s-encode_s w middle opcode range mid op =
    rw (imm_s-sum (encode_s w middle opcode)) (unfold sext shl64 in ground arith)

imm_b-sum :
    (i : ℕ)
    → imm_b i
      ≡ word (
          shl64 (sext (i / 2 ^ 31 % 2) 1) 12
          + i / 2 ^ 7 % 2 * 2 ^ 11
          + i / 2 ^ 25 % 2 ^ 6 * 2 ^ 5
          + i / 2 ^ 8 % 2 ^ 4 * 2)
unfolding imm_b
imm_b-sum i =
    let top = shl64 (sext (i / 2 ^ 31 % 2) 1) 12 in
    let zeros : top % 2 ^ 12 ≡ 0 = unfold shl64 in omega arith in
    let exact : (shl64 (i / 2 ^ 7 % 2) 11 ≡ i / 2 ^ 7 % 2 * 2 ^ 11)
        × (shl64 (i / 2 ^ 25 % 2 ^ 6) 5 ≡ i / 2 ^ 25 % 2 ^ 6 * 2 ^ 5)
        × (shl64 (i / 2 ^ 8 % 2 ^ 4) 1 ≡ i / 2 ^ 8 % 2 ^ 4 * 2) =
      unfold shl64 in omega arith in
    rw (
      bits-field i 31 31,
      bits-field i 7 7,
      bits-field i 30 25,
      bits-field i 11 8,
      exact.0,
      exact.1,
      exact.2,
      bit_or-add 12 top (i / 2 ^ 7 % 2 * 2 ^ 11) zeros (omega arith),
      bit_or-add 11 (top + i / 2 ^ 7 % 2 * 2 ^ 11) (i / 2 ^ 25 % 2 ^ 6 * 2 ^ 5) (omega arith)
          (omega arith),
      bit_or-add 5 (top + i / 2 ^ 7 % 2 * 2 ^ 11 + i / 2 ^ 25 % 2 ^ 6 * 2 ^ 5)
          (i / 2 ^ 8 % 2 ^ 4 * 2) (omega arith) (omega arith),
    )

imm_b-encode_b :
    (w middle opcode : ℕ)
    → InRange 13 w
    → w % 2 ≡ 0
    → middle < 2 ^ 13
    → opcode < 2 ^ 7
    → imm_b (encode_b w middle opcode) ≡ w
imm_b-encode_b w middle opcode range even mid op =
    rw (imm_b-sum (encode_b w middle opcode)) (unfold sext shl64 in ground arith)

imm_j-sum :
    (i : ℕ)
    → imm_j i
      ≡ word (
          shl64 (sext (i / 2 ^ 31 % 2) 1) 20
          + i / 2 ^ 12 % 2 ^ 8 * 2 ^ 12
          + i / 2 ^ 20 % 2 * 2 ^ 11
          + i / 2 ^ 21 % 2 ^ 10 * 2)
unfolding imm_j
imm_j-sum i =
    let top = shl64 (sext (i / 2 ^ 31 % 2) 1) 20 in
    let zeros : top % 2 ^ 20 ≡ 0 = unfold shl64 in omega arith in
    let exact : (shl64 (i / 2 ^ 12 % 2 ^ 8) 12 ≡ i / 2 ^ 12 % 2 ^ 8 * 2 ^ 12)
        × (shl64 (i / 2 ^ 20 % 2) 11 ≡ i / 2 ^ 20 % 2 * 2 ^ 11)
        × (shl64 (i / 2 ^ 21 % 2 ^ 10) 1 ≡ i / 2 ^ 21 % 2 ^ 10 * 2) =
      unfold shl64 in omega arith in
    rw (
      bits-field i 31 31,
      bits-field i 19 12,
      bits-field i 20 20,
      bits-field i 30 21,
      exact.0,
      exact.1,
      exact.2,
      bit_or-add 20 top (i / 2 ^ 12 % 2 ^ 8 * 2 ^ 12) zeros (omega arith),
      bit_or-add 12 (top + i / 2 ^ 12 % 2 ^ 8 * 2 ^ 12) (i / 2 ^ 20 % 2 * 2 ^ 11) (omega arith)
          (omega arith),
      bit_or-add 11 (top + i / 2 ^ 12 % 2 ^ 8 * 2 ^ 12 + i / 2 ^ 20 % 2 * 2 ^ 11)
          (i / 2 ^ 21 % 2 ^ 10 * 2) (omega arith) (omega arith),
    )

imm_j-encode_j : (w low : ℕ) → InRange 21 w → w % 2 ≡ 0 → low < 2 ^ 12 → imm_j (encode_j w low) ≡ w
imm_j-encode_j w low range even small =
    rw (imm_j-sum (encode_j w low)) (unfold sext shl64 in ground arith)

-- Decoding gives back the immediate that an instruction was assembled with, in each of the formats
-- I, S and U: a signed number of 12 bits, or a word that ends in 12 zeros, whatever the rest of the
-- instruction holds.
pub immediates_roundtrip :
    (w v low low' middle opcode : ℕ)
    → InRange 12 w
    → v < 2 ^ 32
    → v % 2 ^ 12 ≡ 0
    → low < 2 ^ 20
    → low' < 2 ^ 12
    → middle < 2 ^ 13
    → opcode < 2 ^ 7
    → (imm_i (encode_i w low) ≡ w)
      × (imm_s (encode_s w middle opcode) ≡ w)
      × (imm_u (encode_u v low') ≡ v)
immediates_roundtrip w v low low' middle opcode range small page fits fits' mid op = (
  imm_i-encode_i w low range fits,
  imm_s-encode_s w middle opcode range mid op,
  imm_u-encode_u v low' small page fits',
)

-- Decoding gives back the offset that a branch (format B) or a jump (format J) was assembled with:
-- an even signed number of 13 bits, or of 21.
pub offsets_roundtrip :
    (w v low middle opcode : ℕ)
    → InRange 13 w
    → w % 2 ≡ 0
    → InRange 21 v
    → v % 2 ≡ 0
    → low < 2 ^ 12
    → middle < 2 ^ 13
    → opcode < 2 ^ 7
    → (imm_b (encode_b w middle opcode) ≡ w) × (imm_j (encode_j v low) ≡ v)
offsets_roundtrip w v low middle opcode range even range' even' fits mid op =
    (imm_b-encode_b w middle opcode range even mid op, imm_j-encode_j v low range' even' fits)
