-- ===== src/Riscv/Predecode.antt =====
-- nemu/src/isa/riscv32/inst.c: `isa_decode_ldstr` and `isa_decode_branch`, with which the cache and
-- branch simulators look at an instruction without running it.
use bailuwan.Riscv.Body.{condition}
use bailuwan.Riscv.Exec.{even_target}
use bailuwan.Decode.Pattern.{first_match}
use bailuwan.Riscv.Word.{add_word}
use bailuwan.Riscv.State.{Machine}
use bailuwan.Base.Run.{ok, pure, ◌>>=◌, and_then, Cmd}
use bailuwan.Memory.Bus.{Env}
use bailuwan.Riscv.Operand.{decode_operand, Operands}
use bailuwan.Base.{[], ◌∷◌, ◌++◌, some, none, false, Option, true, ℕ, Bool}
use bailuwan.Riscv.Lines.{
  inv_line, branch_lines, ldstr_lines, inv, jal, jalr, lb, lh, lw, lbu, lhu, Name,
}

-- What the pointers are set to. `none` is the result 1, for an instruction of another kind.
pub record LoadStore : Type 0 where
  pub is_read : Bool
  pub addr : ℕ

pub record Branch : Type 0 where
  pub target_addr : ℕ
  pub is_uncond : Bool
  pub taken : Bool

abbrev pub is_load : Name → Bool
is_load lb = true
is_load lh = true
is_load lw = true
is_load lbu = true
is_load lhu = true
is_load _ = false

-- The bodies of the lines.
unfoldable pub ldstr_body : Name → Operands → Option LoadStore
ldstr_body inv o = none
ldstr_body n o = some (record { is_read = is_load n; addr = add_word o.src1 o.imm })

unfoldable pub branch_body : Name → ℕ → Operands → Option Branch
branch_body inv pc o = none
branch_body jal pc o =
    some (record { target_addr = add_word pc o.imm; is_uncond = true; taken = true })
branch_body jalr pc o =
    some
      (record { target_addr = even_target (add_word o.src1 o.imm); is_uncond = true; taken = true })
branch_body n pc o = some (record {
  target_addr = add_word pc o.imm;
  is_uncond = false;
  taken = condition n o.src1 o.src2;
})

module _ (env : Env) where
  unfoldable pub isa_decode_ldstr : ℕ → Cmd Machine (Option LoadStore)
  isa_decode_ldstr inst m = and_then (first_match (ldstr_lines ++ inv_line ∷ []) inst) λ found.
      elim found [
        | some l ↦ (do o ← decode_operand env inst l.kind; pure (ldstr_body l.name o)) m
        | none ↦ ok (none, m)
      ]

  unfoldable pub isa_decode_branch : ℕ → ℕ → Cmd Machine (Option Branch)
  isa_decode_branch pc inst m = and_then (first_match (branch_lines ++ inv_line ∷ []) inst) λ found.
      elim found [
        | some l ↦ (do o ← decode_operand env inst l.kind; pure (branch_body l.name pc o)) m
        | none ↦ ok (none, m)
      ]
