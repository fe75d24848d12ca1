-- ===== src/Riscv/Names.antt =====
-- nemu/src/isa/riscv32/reg.c and csr.c: registers by name.
use bailuwan.Base.Run.{◌>>=◌, Cmd, pure, ok}
use bailuwan.Base.{
  codes, equal_text, strtol, ltb, ◌==◌, ◌||◌, ◌%◌, ◌^◌, ◌+◌, if◌then◌else◌, none, some, [], ◌∷◌, ℕ,
  List, Option, map,
}
use bailuwan.Memory.Bus.{Env}
use bailuwan.Riscv.State.{
  Machine, gpr_read, csr_read, csr_mstatus, csr_mtvec, csr_mepc, csr_mcause, csr_mtval, csr_mcycle,
  csr_mcycleh, csr_mvendorid, csr_marchid,
}

unfoldable pub regs : List (List ℕ)
regs = map codes (
    "zero" ∷ "ra" ∷ "sp" ∷ "gp" ∷ "tp" ∷ "t0" ∷ "t1" ∷ "t2" ∷ "s0" ∷ "s1" ∷ "a0" ∷ "a1" ∷ "a2"
    ∷ "a3" ∷ "a4" ∷ "a5" ∷ "a6" ∷ "a7" ∷ "s2" ∷ "s3" ∷ "s4" ∷ "s5" ∷ "s6" ∷ "s7" ∷ "s8" ∷ "s9"
    ∷ "s10" ∷ "s11" ∷ "t3" ∷ "t4" ∷ "t5" ∷ "t6" ∷ [])

-- The entries of `csr_names` that are not NULL, in the order of the loop over the table.
unfoldable pub csr_names : List (List ℕ × ℕ)
csr_names =
    (codes "mstatus", csr_mstatus)
    ∷ (codes "mtvec", csr_mtvec)
    ∷ (codes "mepc", csr_mepc)
    ∷ (codes "mcause", csr_mcause)
    ∷ (codes "mtval", csr_mtval)
    ∷ (codes "mcycle", csr_mcycle)
    ∷ (codes "mcycleh", csr_mcycleh)
    ∷ (codes "mvendorid", csr_mvendorid)
    ∷ (codes "marchid", csr_marchid)
    ∷ []

-- The loops over the names: the index of the first that is `s`.
unfoldable pub find_reg : List (List ℕ) → ℕ → List ℕ → Option ℕ
find_reg [] i s = none
find_reg (r ∷ rs) i s =
    let later = find_reg rs (i + 1) s in if equal_text s r then some i else later

unfoldable pub find_csr : List (List ℕ × ℕ) → List ℕ → Option ℕ
find_csr [] s = none
find_csr ((name, i) ∷ rs) s =
    let later = find_csr rs s in if equal_text s name then some i else later

module _ (env : Env) where
  -- The register of the index, if there is one.
  abbrev read_gpr : Option ℕ → Cmd Machine (Option ℕ)
  read_gpr none = pure none
  read_gpr (some i) = do v ← gpr_read env i; pure (some v)

  abbrev read_csr : Option ℕ → Cmd Machine (Option ℕ)
  read_csr none = pure none
  read_csr (some i) = do v ← csr_read env i; pure (some v)

  -- The index that `x` is followed by, as a word, if it is below 32.
  unfoldable pub reg_index : List ℕ → Option ℕ
  reg_index s = elim (strtol 10 s) [
    | none ↦ none
    | some n ↦ if ltb (n % 2 ^ 32) 32 then some (n % 2 ^ 32) else none
  ]

  -- `none` is `*success == false`.
  unfoldable pub isa_reg_str2val : List ℕ → Cmd Machine (Option ℕ)
  unfolding find_reg regs reg_index
  isa_reg_str2val [] = read_gpr (find_reg regs 0 [])
  isa_reg_str2val (c ∷ s) =
      if equal_text (c ∷ s) (codes "pc")
      then (λ m. ok (some m.cpu.pc, m))
      else if c == b'x' || c == b'X'
      then read_gpr (reg_index s)
      else read_gpr (find_reg regs 0 (c ∷ s))

  unfoldable pub isa_csr_str2val : List ℕ → Cmd Machine (Option ℕ)
  unfolding find_csr csr_names
  isa_csr_str2val s = read_csr (find_csr csr_names s)
