-- ===== src/Riscv/Typing.antt =====
-- The parts of an instruction's body keep words and bytes.
use bailuwan.Riscv.Words.{AreWords}
use bailuwan.Memory.BusBytes.{CallsKeepBytes}
use bailuwan.Base.Keeps.{Keeps-pure, Keeps-seq, Keeps-bind, Keeps}
use bailuwan.Base.{◌-◌, ℕ, ◌+◌, ◌^◌, ◌<◌, arith, bit_or, bit_and}
use bailuwan.Base.Bits.{bit_and-lt, bit_or-lt}
use bailuwan.Base.Run.{Cmd, pure, ◌>>=◌, ◌>>◌}
use bailuwan.Memory.Bus.{Env}
use bailuwan.Riscv.Lines.{
  type_n, type_csr_imm, type_csr, type_j, type_u, type_b, type_s, type_i, type_r, Kind,
}
use bailuwan.Riscv.Word.{word, bits-field, complement, add_word}
use bailuwan.Riscv.Typed.{
  IsMachine, IsWord, Nothing, gpr_read-IsMachine, gpr_write-IsMachine, csr_read-IsMachine,
  csr_write-IsMachine, mem_read-IsMachine, mem_write-IsMachine, set_nemu_state-IsMachine,
}
use bailuwan.Riscv.State.{
  Machine, gpr_read, gpr_write, csr_read, csr_write, mem_read, mem_write, csr_mepc, csr_mtval,
  csr_mcause, csr_mtvec, nemu_abort,
}
use bailuwan.Riscv.Operand.{
  Operands, decode_operand, fields, imm_i, imm_s, imm_b, imm_u, imm_j, imm_csr, csr_addr,
}
use bailuwan.Riscv.Exec.{
  Decode, set_rd, load_rd, store_src2, isa_raise_intr, riscv_csrrwi, riscv_csrrsi, riscv_csrrci,
  riscv_csrrw, riscv_csrrs, riscv_csrrc, riscv_ecall, riscv_mret, invalid_inst,
}

-- The addresses of a decode structure are words.
pub record IsDecode (s : Decode) : Type 0 where
  pub pc_word : s.pc < 2 ^ 32
  pub snpc_word : s.snpc < 2 ^ 32
  pub dnpc_word : s.dnpc < 2 ^ 32

abbrev pub Typed : {A : Type 0} → (A → Type 0) → Cmd Machine A → Type 0
Typed Q c = Keeps IsMachine Q c

module _ (env : Env) where
  operand_words : (o : Operands) → o.src1 < 2 ^ 32 → o.src2 < 2 ^ 32 → o.imm < 2 ^ 32 → AreWords o
  operand_words o a b c = record { src1_word = a; src2_word = b; imm_word = c }

  from_src1 :
      (i : ℕ) (imm csr : ℕ)
      → imm < 2 ^ 32
      → Typed AreWords (do
        src1 ← gpr_read env (fields i).rs1
        pure (record (fields i) { src1 = src1; imm = imm; csr = csr }))
  unfolding fields
  from_src1 i imm csr small =
      Keeps-bind IsMachine IsWord AreWords (gpr_read env (fields i).rs1) _
        (gpr_read-IsMachine env (fields i).rs1)
        λ a a_word. Keeps-pure IsMachine AreWords _ (
          operand_words (record (fields i) { src1 = a; imm = imm; csr = csr }) a_word (omega arith)
            small)

  from_both :
      (i : ℕ) (imm : ℕ)
      → imm < 2 ^ 32
      → Typed AreWords (do
        src1 ← gpr_read env (fields i).rs1
        src2 ← gpr_read env (fields i).rs2
        pure (record (fields i) { src1 = src1; src2 = src2; imm = imm }))
  from_both i imm small =
      Keeps-bind IsMachine IsWord AreWords (gpr_read env (fields i).rs1) _
        (gpr_read-IsMachine env (fields i).rs1)
        λ a a_word.
          Keeps-bind IsMachine IsWord AreWords (gpr_read env (fields i).rs2) _
            (gpr_read-IsMachine env (fields i).rs2)
            λ b b_word. Keeps-pure IsMachine AreWords _ (
              operand_words (record (fields i) { src1 = a; src2 = b; imm = imm }) a_word b_word
                small)

  imm_csr-lt : (i : ℕ) → imm_csr i < 2 ^ 32
  unfolding imm_csr
  imm_csr-lt i = rw (bits-field i 19 15) (omega arith)

  pub decode_operand-AreWords : (i : ℕ) (k : Kind) → Typed AreWords (decode_operand env i k)
  unfolding decode_operand imm_i imm_s imm_b imm_u imm_j fields
  decode_operand-AreWords i type_r = from_both i 0 (omega arith)
  decode_operand-AreWords i type_i = from_src1 i (imm_i i) 0 (omega arith)
  decode_operand-AreWords i type_s = from_both i (imm_s i) (omega arith)
  decode_operand-AreWords i type_b = from_both i (imm_b i) (omega arith)
  decode_operand-AreWords i type_u = Keeps-pure IsMachine AreWords _ (
      operand_words (record (fields i) { imm = imm_u i }) (omega arith) (omega arith) (omega arith))
  decode_operand-AreWords i type_j = Keeps-pure IsMachine AreWords _ (
      operand_words (record (fields i) { imm = imm_j i }) (omega arith) (omega arith) (omega arith))
  decode_operand-AreWords i type_csr = from_src1 i 0 (csr_addr i) (omega arith)
  decode_operand-AreWords i type_csr_imm = Keeps-pure IsMachine AreWords _ (
      operand_words (record (fields i) { imm = imm_csr i; csr = csr_addr i }) (omega arith)
        (omega arith) (imm_csr-lt i))
  decode_operand-AreWords i type_n =
      Keeps-pure IsMachine AreWords _
        (operand_words (fields i) (omega arith) (omega arith) (omega arith))

  -- A CSR is read, rewritten by `f`, and its old value goes to a register.
  swap_csr :
      (csr rd : ℕ) (f : ℕ → ℕ)
      → ((a : ℕ) → a < 2 ^ 32 → f a < 2 ^ 32)
      → Typed Nothing
          (do oldval ← csr_read env csr; csr_write env csr (f oldval); gpr_write env rd oldval)
  swap_csr csr rd f words =
      Keeps-bind IsMachine IsWord Nothing (csr_read env csr) _ (csr_read-IsMachine env csr)
        λ old old_word.
          Keeps-seq IsMachine Nothing Nothing (csr_write env csr (f old)) _
            (csr_write-IsMachine env csr (f old) (words old old_word))
            (gpr_write-IsMachine env rd old old_word)

  pub csrrwi-Typed : (csr v rd : ℕ) → v < 2 ^ 32 → Typed Nothing (riscv_csrrwi env csr v rd)
  unfolding riscv_csrrwi
  csrrwi-Typed csr v rd h = swap_csr csr rd (λ a. v) (λ a small. h)

  pub csrrsi-Typed : (csr v rd : ℕ) → v < 2 ^ 32 → Typed Nothing (riscv_csrrsi env csr v rd)
  unfolding riscv_csrrsi
  csrrsi-Typed csr v rd h = swap_csr csr rd (λ a. bit_or a v) (λ a small. bit_or-lt 32 a v small h)

  pub csrrci-Typed : (csr v rd : ℕ) → Typed Nothing (riscv_csrrci env csr v rd)
  unfolding riscv_csrrci
  csrrci-Typed csr v rd =
      swap_csr csr rd (λ a. bit_and a (complement v))
        (λ a small. bit_and-lt 32 a (complement v) small)

  with_source :
      (rs1 : ℕ) (k : ℕ → Cmd Machine (Unit {0}))
      → ((v : ℕ) → v < 2 ^ 32 → Typed Nothing (k v))
      → Typed Nothing (do v ← gpr_read env rs1; k v)
  with_source rs1 k later =
      Keeps-bind IsMachine IsWord Nothing (gpr_read env rs1) k (gpr_read-IsMachine env rs1) later

  pub csrrw-Typed : (csr rs1 rd : ℕ) → Typed Nothing (riscv_csrrw env csr rs1 rd)
  unfolding riscv_csrrw
  csrrw-Typed csr rs1 rd =
      with_source rs1 (λ v. riscv_csrrwi env csr v rd) (λ v h. csrrwi-Typed csr v rd h)

  pub csrrs-Typed : (csr rs1 rd : ℕ) → Typed Nothing (riscv_csrrs env csr rs1 rd)
  unfolding riscv_csrrs
  csrrs-Typed csr rs1 rd =
      with_source rs1 (λ v. riscv_csrrsi env csr v rd) (λ v h. csrrsi-Typed csr v rd h)

  pub csrrc-Typed : (csr rs1 rd : ℕ) → Typed Nothing (riscv_csrrc env csr rs1 rd)
  unfolding riscv_csrrc
  csrrc-Typed csr rs1 rd =
      with_source rs1 (λ v. riscv_csrrci env csr v rd) (λ v h. csrrci-Typed csr v rd)

  isa_raise_intr-Typed :
      (cause epc : ℕ) → cause < 2 ^ 32 → epc < 2 ^ 32 → Typed IsWord (isa_raise_intr env cause epc)
  unfolding isa_raise_intr
  isa_raise_intr-Typed cause epc cause_word epc_word =
      Keeps-seq IsMachine Nothing IsWord (csr_write env csr_mepc epc) _
        (csr_write-IsMachine env csr_mepc epc epc_word)
        (Keeps-seq IsMachine Nothing IsWord (csr_write env csr_mtval epc) _
          (csr_write-IsMachine env csr_mtval epc epc_word)
          (Keeps-seq IsMachine Nothing IsWord (csr_write env csr_mcause cause) _
            (csr_write-IsMachine env csr_mcause cause cause_word)
            (csr_read-IsMachine env csr_mtvec)))

  pub ecall-Typed : (epc : ℕ) → epc < 2 ^ 32 → Typed IsWord (riscv_ecall env epc)
  unfolding riscv_ecall
  ecall-Typed epc small m m' v typed h =
      isa_raise_intr-Typed (m.cpu.priv_level + 8) epc (omega (arith, typed.priv_in)) small m m' v
        typed h

  pub mret-Typed : Typed IsWord (riscv_mret env)
  unfolding riscv_mret
  mret-Typed = csr_read-IsMachine env csr_mepc

  -- What ends by returning `s`.
  pub then_decode :
      (c : Cmd Machine (Unit {0})) (s : Decode)
      → Typed Nothing c
      → IsDecode s
      → Typed IsDecode (do c; pure s)
  then_decode c s typed s_words =
      Keeps-seq IsMachine Nothing IsDecode c (pure s) typed
        (Keeps-pure IsMachine IsDecode s s_words)

  pub set_rd-Typed :
      (v : ℕ) (s : Decode) (o : Operands)
      → v < 2 ^ 32
      → IsDecode s
      → Typed IsDecode (set_rd env v s o)
  unfolding set_rd
  set_rd-Typed v s o small s_words =
      then_decode (gpr_write env o.rd v) s (gpr_write-IsMachine env o.rd v small) s_words

module _ (env : Env) (calls : CallsKeepBytes env) where
  pub invalid_inst-Typed : (pc : ℕ) → Typed Nothing (invalid_inst env pc)
  unfolding invalid_inst
  invalid_inst-Typed pc =
      Keeps-bind IsMachine IsWord Nothing (mem_read env pc 4) _ (mem_read-IsMachine env calls pc 4)
        λ a a_word.
          Keeps-bind IsMachine IsWord Nothing (mem_read env (word (pc + 4)) 4) _
            (mem_read-IsMachine env calls (word (pc + 4)) 4)
            λ b b_word. set_nemu_state-IsMachine nemu_abort pc (2 ^ 32 - 1)

  pub load_rd-Typed :
      (len : ℕ) (f : ℕ → ℕ) (s : Decode) (o : Operands)
      → ((v : ℕ) → v < 2 ^ 32 → f v < 2 ^ 32)
      → IsDecode s
      → Typed IsDecode (load_rd env len f s o)
  unfolding load_rd
  load_rd-Typed len f s o words s_words =
      Keeps-bind IsMachine IsWord IsDecode (mem_read env (add_word o.src1 o.imm) len) _
        (mem_read-IsMachine env calls (add_word o.src1 o.imm) len)
        λ v v_word. set_rd-Typed env (f v) s o (words v v_word) s_words

  pub store_src2-Typed :
      (len : ℕ) (s : Decode) (o : Operands) → IsDecode s → Typed IsDecode (store_src2 env len s o)
  unfolding store_src2
  store_src2-Typed len s o s_words =
      then_decode env (mem_write env (add_word o.src1 o.imm) len o.src2) s
        (mem_write-IsMachine env calls (add_word o.src1 o.imm) len o.src2) s_words
