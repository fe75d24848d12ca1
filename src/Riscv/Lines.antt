-- ===== src/Riscv/Lines.antt =====
-- nemu/src/isa/riscv32/inst.c: the lines of `decode_exec`, `isa_decode_ldstr` and
-- `isa_decode_branch`, in their order.
use bailuwan.Base.{codes, [], ◌∷◌, List}
use bailuwan.Decode.Pattern.{Line}
use Prim.Native.String.{String}

-- The enumeration of operand types.
pub data Kind : Type 0 where
  type_r type_i type_s type_b type_u type_j type_csr type_csr_imm type_n : Kind

-- The second argument of INSTPAT; a C keyword operator carries an underscore.
pub data Name : Type 0 where
  lui auipc jal jalr beq bne blt bge bltu bgeu : Name
  lb lh lw lbu lhu sb sh sw addi slti : Name
  sltiu xori ori andi slli srli srai add sub sll : Name
  slt sltu xor_ srl sra or_ and_ fence ecall ebreak : Name
  mul mulh mulhsu mulhu div divu rem remu csrrw csrrs : Name
  csrrc csrrwi csrrsi csrrci mret fence_i inv : Name

abbrev pub line : String → Name → Kind → Line Name Kind
line pattern name kind = record { pattern = codes pattern; name = name; kind = kind }

-- The last line of each function, which takes what no other line takes.
unfoldable pub inv_line : Line Name Kind
inv_line = line "??????? ????? ????? ??? ????? ????? ??" inv type_n

-- `decode_exec`, but for the last line.
unfoldable pub exec_lines : List (Line Name Kind)
exec_lines =
    line "??????? ????? ????? ??? ????? 01101 11" lui type_u
    ∷ line "??????? ????? ????? ??? ????? 00101 11" auipc type_u
    ∷ line "??????? ????? ????? ??? ????? 11011 11" jal type_j
    ∷ line "??????? ????? ????? 000 ????? 11001 11" jalr type_i
    ∷ line "??????? ????? ????? 000 ????? 11000 11" beq type_b
    ∷ line "??????? ????? ????? 001 ????? 11000 11" bne type_b
    ∷ line "??????? ????? ????? 100 ????? 11000 11" blt type_b
    ∷ line "??????? ????? ????? 101 ????? 11000 11" bge type_b
    ∷ line "??????? ????? ????? 110 ????? 11000 11" bltu type_b
    ∷ line "??????? ????? ????? 111 ????? 11000 11" bgeu type_b
    ∷ line "??????? ????? ????? 000 ????? 00000 11" lb type_i
    ∷ line "??????? ????? ????? 001 ????? 00000 11" lh type_i
    ∷ line "??????? ????? ????? 010 ????? 00000 11" lw type_i
    ∷ line "??????? ????? ????? 100 ????? 00000 11" lbu type_i
    ∷ line "??????? ????? ????? 101 ????? 00000 11" lhu type_i
    ∷ line "??????? ????? ????? 000 ????? 01000 11" sb type_s
    ∷ line "??????? ????? ????? 001 ????? 01000 11" sh type_s
    ∷ line "??????? ????? ????? 010 ????? 01000 11" sw type_s
    ∷ line "??????? ????? ????? 000 ????? 00100 11" addi type_i
    ∷ line "??????? ????? ????? 010 ????? 00100 11" slti type_i
    ∷ line "??????? ????? ????? 011 ????? 00100 11" sltiu type_i
    ∷ line "??????? ????? ????? 100 ????? 00100 11" xori type_i
    ∷ line "??????? ????? ????? 110 ????? 00100 11" ori type_i
    ∷ line "??????? ????? ????? 111 ????? 00100 11" andi type_i
    ∷ line "0000000 ????? ????? 001 ????? 00100 11" slli type_i
    ∷ line "0000000 ????? ????? 101 ????? 00100 11" srli type_i
    ∷ line "0100000 ????? ????? 101 ????? 00100 11" srai type_i
    ∷ line "0000000 ????? ????? 000 ????? 01100 11" add type_r
    ∷ line "0100000 ????? ????? 000 ????? 01100 11" sub type_r
    ∷ line "0000000 ????? ????? 001 ????? 01100 11" sll type_r
    ∷ line "0000000 ????? ????? 010 ????? 01100 11" slt type_r
    ∷ line "0000000 ????? ????? 011 ????? 01100 11" sltu type_r
    ∷ line "0000000 ????? ????? 100 ????? 01100 11" xor_ type_r
    ∷ line "0000000 ????? ????? 101 ????? 01100 11" srl type_r
    ∷ line "0100000 ????? ????? 101 ????? 01100 11" sra type_r
    ∷ line "0000000 ????? ????? 110 ????? 01100 11" or_ type_r
    ∷ line "0000000 ????? ????? 111 ????? 01100 11" and_ type_r
    ∷ line "??????? ????? ????? 000 ????? 00011 11" fence type_n
    ∷ line "0000000 00000 00000 000 00000 11100 11" ecall type_n
    ∷ line "0000000 00001 00000 000 00000 11100 11" ebreak type_n
    ∷ line "0000001 ????? ????? 000 ????? 01100 11" mul type_r
    ∷ line "0000001 ????? ????? 001 ????? 01100 11" mulh type_r
    ∷ line "0000001 ????? ????? 010 ????? 01100 11" mulhsu type_r
    ∷ line "0000001 ????? ????? 011 ????? 01100 11" mulhu type_r
    ∷ line "0000001 ????? ????? 100 ????? 01100 11" div type_r
    ∷ line "0000001 ????? ????? 101 ????? 01100 11" divu type_r
    ∷ line "0000001 ????? ????? 110 ????? 01100 11" rem type_r
    ∷ line "0000001 ????? ????? 111 ????? 01100 11" remu type_r
    ∷ line "??????? ????? ????? 001 ????? 11100 11" csrrw type_csr
    ∷ line "??????? ????? ????? 010 ????? 11100 11" csrrs type_csr
    ∷ line "??????? ????? ????? 011 ????? 11100 11" csrrc type_csr
    ∷ line "??????? ????? ????? 101 ????? 11100 11" csrrwi type_csr_imm
    ∷ line "??????? ????? ????? 110 ????? 11100 11" csrrsi type_csr_imm
    ∷ line "??????? ????? ????? 111 ????? 11100 11" csrrci type_csr_imm
    ∷ line "0011000 00010 00000 000 00000 11100 11" mret type_n
    ∷ line "??????? ????? ????? 001 ????? 00011 11" fence_i type_n
    ∷ []

-- `isa_decode_ldstr`, but for the last line.
unfoldable pub ldstr_lines : List (Line Name Kind)
ldstr_lines =
    line "??????? ????? ????? 000 ????? 00000 11" lb type_i
    ∷ line "??????? ????? ????? 001 ????? 00000 11" lh type_i
    ∷ line "??????? ????? ????? 010 ????? 00000 11" lw type_i
    ∷ line "??????? ????? ????? 100 ????? 00000 11" lbu type_i
    ∷ line "??????? ????? ????? 101 ????? 00000 11" lhu type_i
    ∷ line "??????? ????? ????? 000 ????? 01000 11" sb type_s
    ∷ line "??????? ????? ????? 001 ????? 01000 11" sh type_s
    ∷ line "??????? ????? ????? 010 ????? 01000 11" sw type_s
    ∷ []

-- `isa_decode_branch`, but for the last line.
unfoldable pub branch_lines : List (Line Name Kind)
branch_lines =
    line "??????? ????? ????? 000 ????? 11000 11" beq type_b
    ∷ line "??????? ????? ????? 001 ????? 11000 11" bne type_b
    ∷ line "??????? ????? ????? 100 ????? 11000 11" blt type_b
    ∷ line "??????? ????? ????? 101 ????? 11000 11" bge type_b
    ∷ line "??????? ????? ????? 110 ????? 11000 11" bltu type_b
    ∷ line "??????? ????? ????? 111 ????? 11000 11" bgeu type_b
    ∷ line "??????? ????? ????? ??? ????? 11011 11" jal type_j
    ∷ line "??????? ????? ????? 000 ????? 11001 11" jalr type_i
    ∷ []
