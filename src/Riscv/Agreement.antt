-- ===== src/Riscv/Agreement.antt =====
-- `isa_decode_branch` and `isa_decode_ldstr` against `decode_exec`.
use bailuwan.Riscv.Dispatch.{decode_exec-run_line}
use mathlib.Core.Path.{subst}
use bailuwan.Decode.Lines.{find_line-snoc, first_match-find_line, find_line, valid}
use bailuwan.Base.Run.{ok_cancel, Run, pure, ◌>>=◌, ok}
use bailuwan.Decode.Pattern.{Line}
use bailuwan.Riscv.State.{Machine}
use bailuwan.Riscv.Word.{add_word}
use bailuwan.Riscv.Step.{
  gpr_write-ok, fields-lt, operands-rd, decode_operand-operands, operands, set_rd-ok, with_reg,
  HasAllRegs,
}
use bailuwan.Riscv.Operand.{decode_operand, Operands}
use bailuwan.Riscv.Exec.{even_target, jump, branch_to, Decode}
use bailuwan.Riscv.Body.{decode_exec, run_line, condition, control, compute, body}
use bailuwan.Memory.Bus.{Env}
use bailuwan.Riscv.Predecode.{isa_decode_branch, branch_body, Branch}
use bailuwan.Base.{
  inr, arith, inl, sym, ◌∙◌, ap, none, Option, zero, [], none≢some, ◌∷◌, suc, ◌++◌, some_cancel,
  false≢true, get_elem?, refl, some, ◌<◌, ◌≡◌, if◌then◌else◌, false, true, ℕ, Bool,
}
use bailuwan.Riscv.Lines.{
  type_n, inv_line, Kind, exec_lines, branch_lines, jal, jalr, beq, bne, blt, bge, bltu, bgeu, Name,
}

abbrev pub is_branch : Name → Bool
is_branch jal = true
is_branch jalr = true
is_branch beq = true
is_branch bne = true
is_branch blt = true
is_branch bge = true
is_branch bltu = true
is_branch bgeu = true
is_branch _ = false

-- Where execution goes on after a branch.
abbrev pub next_pc : Branch → Decode → ℕ
next_pc b s = if b.taken then b.target_addr else s.snpc

-- The branch of a conditional line.
abbrev conditional : Name → ℕ → Operands → Branch
conditional n pc o = record {
  target_addr = add_word pc o.imm;
  is_uncond = false;
  taken = condition n o.src1 o.src2;
}

branch_lines-valid : valid (branch_lines ++ inv_line ∷ []) ≡ true
unfolding valid branch_lines inv_line
branch_lines-valid = refl

module _ (env : Env) (all : HasAllRegs env) where
  -- What both functions make of a line, once the operands are decoded.
  abbrev Follows : Name → Decode → Operands → Machine → Type 0
  Follows n s o m =
      (b : Branch) × (s' : Decode) × (m' : Machine) × (branch_body n s.pc o ≡ some b)
      × (body env n s o m ≡ ok (s', m'))
      × (s'.dnpc ≡ (if b.taken then b.target_addr else s.dnpc))

  branch_to-dnpc :
      (taken : Bool) (target : ℕ) (s : Decode)
      → (branch_to taken target s).dnpc ≡ (if taken then target else s.dnpc)
  branch_to-dnpc true target s = refl
  branch_to-dnpc false target s = refl

  branch-Follows :
      (n : Name) (s : Decode) (o : Operands) (m : Machine)
      → o.rd < 32
      → is_branch n ≡ true
      → Follows n s o m
  unfolding branch_body body compute control
  branch-Follows jal s o m rd h =
      let target = add_word s.pc o.imm in
      (
        record { target_addr = target; is_uncond = true; taken = true },
        jump target s,
        with_reg m o.rd (add_word s.pc 4),
        refl,
        set_rd-ok env all (add_word s.pc 4) (jump target s) o m rd,
        refl,
      )
  branch-Follows jalr s o m rd h =
      let target = even_target (add_word o.src1 o.imm) in
      (
        record { target_addr = target; is_uncond = true; taken = true },
        jump target s,
        with_reg m o.rd (add_word s.pc 4),
        refl,
        set_rd-ok env all (add_word s.pc 4) (jump target s) o m rd,
        refl,
      )
  branch-Follows beq s o m rd h =
      let b = conditional beq s.pc o in
      (b, branch_to b.taken b.target_addr s, m, refl, refl, branch_to-dnpc b.taken b.target_addr s)
  branch-Follows bne s o m rd h =
      let b = conditional bne s.pc o in
      (b, branch_to b.taken b.target_addr s, m, refl, refl, branch_to-dnpc b.taken b.target_addr s)
  branch-Follows blt s o m rd h =
      let b = conditional blt s.pc o in
      (b, branch_to b.taken b.target_addr s, m, refl, refl, branch_to-dnpc b.taken b.target_addr s)
  branch-Follows bge s o m rd h =
      let b = conditional bge s.pc o in
      (b, branch_to b.taken b.target_addr s, m, refl, refl, branch_to-dnpc b.taken b.target_addr s)
  branch-Follows bltu s o m rd h =
      let b = conditional bltu s.pc o in
      (b, branch_to b.taken b.target_addr s, m, refl, refl, branch_to-dnpc b.taken b.target_addr s)
  branch-Follows bgeu s o m rd h =
      let b = conditional bgeu s.pc o in
      (b, branch_to b.taken b.target_addr s, m, refl, refl, branch_to-dnpc b.taken b.target_addr s)
  branch-Follows _ s o m rd h = absurd (false≢true h)

  is_branch_at : {k l : Line Name Kind} → k ≡ l → is_branch k.name ≡ true → is_branch l.name ≡ true
  is_branch_at e h = subst (λ n. is_branch n.name ≡ true) e h

  -- A line of `isa_decode_branch` is one of `decode_exec`.
  branch_lines-in-exec_lines :
      (i : ℕ) (l : Line Name Kind)
      → get_elem? branch_lines i ≡ some l
      → (j : ℕ) × (get_elem? exec_lines j ≡ some l) × (is_branch l.name ≡ true)
  unfolding branch_lines exec_lines
  branch_lines-in-exec_lines zero l h = (4, h, is_branch_at (some_cancel h) refl)
  branch_lines-in-exec_lines (suc zero) l h = (5, h, is_branch_at (some_cancel h) refl)
  branch_lines-in-exec_lines (suc (suc zero)) l h = (6, h, is_branch_at (some_cancel h) refl)
  branch_lines-in-exec_lines (suc (suc (suc zero))) l h = (7, h, is_branch_at (some_cancel h) refl)
  branch_lines-in-exec_lines (suc (suc (suc (suc zero)))) l h =
      (8, h, is_branch_at (some_cancel h) refl)
  branch_lines-in-exec_lines (suc (suc (suc (suc (suc zero))))) l h =
      (9, h, is_branch_at (some_cancel h) refl)
  branch_lines-in-exec_lines (suc (suc (suc (suc (suc (suc zero)))))) l h =
      (2, h, is_branch_at (some_cancel h) refl)
  branch_lines-in-exec_lines (suc (suc (suc (suc (suc (suc (suc zero))))))) l h =
      (3, h, is_branch_at (some_cancel h) refl)
  branch_lines-in-exec_lines (suc (suc (suc (suc (suc (suc (suc (suc i)))))))) l h =
      absurd (none≢some h)

  pub isa_decode_branch-find_line :
      (pc inst : ℕ) (m : Machine)
      → isa_decode_branch env pc inst m ≡ elim (find_line (branch_lines ++ inv_line ∷ []) inst) [
        | some l ↦ ok (branch_body l.name pc (operands inst l.kind m.cpu), m)
        | none ↦ ok (none, m)
      ]
  unfolding isa_decode_branch
  isa_decode_branch-find_line pc inst m =
      rw (first_match-find_line (branch_lines ++ inv_line ∷ []) inst branch_lines-valid)
        (on_line (find_line (branch_lines ++ inv_line ∷ []) inst))
    where
      on_line :
          (found : Option (Line Name Kind))
          → ◌≡◌ {A = Run (Option Branch × Machine)}
              (elim found [
                | some l ↦ (do o ← decode_operand env inst l.kind; pure (branch_body l.name pc o)) m
                | none ↦ ok (none, m)
              ])
              (elim found [
                | some l ↦ ok (branch_body l.name pc (operands inst l.kind m.cpu), m)
                | none ↦ ok (none, m)
              ])
      on_line none = refl
      on_line (some l) = rw (decode_operand-operands env all inst l.kind m)

module _ (env : Env) (all : HasAllRegs env) where
  -- A line of `isa_decode_branch` runs to the end in `decode_exec`.
  run_line-Follows :
      (l : Line Name Kind) (b : Branch) (s : Decode) (m : Machine)
      → is_branch l.name ≡ true
      → branch_body l.name s.pc (operands s.inst l.kind m.cpu) ≡ some b
      → (s' : Decode) × (m' : Machine) × (run_line env l s m ≡ ok (s', m'))
        × (s'.dnpc ≡ (if b.taken then b.target_addr else s.dnpc))
  unfolding run_line with_reg
  run_line-Follows l b s m h e =
      let o = operands s.inst l.kind m.cpu in
      let rd : o.rd < 32 =
        rw (operands-rd s.inst l.kind m.cpu, ← operands-rd s.inst type_n m.cpu)
          (fields-lt s.inst).0 in
      let (b', s', m', eb, er, ed) = branch-Follows env all l.name s o m rd h in
      let same : b' ≡ b = some_cancel (sym eb ∙ e) in
      (
        s',
        with_reg m' 0 0,
        rw (
          decode_operand-operands env all s.inst l.kind m,
          er,
          gpr_write-ok env all 0 0 m' (omega arith),
        ),
        ed ∙ ap (λ c. if c.taken then c.target_addr else s.dnpc) same,
      )

  find_line-Follows :
      (l : Line Name Kind) (b : Branch) (s : Decode) (m : Machine)
      → find_line (branch_lines ++ inv_line ∷ []) s.inst ≡ some l
      → branch_body l.name s.pc (operands s.inst l.kind m.cpu) ≡ some b
      → (s' : Decode) × (m' : Machine) × (decode_exec env s m ≡ ok (s', m'))
        × (s'.dnpc ≡ next_pc b s)
  unfolding inv_line branch_body
  find_line-Follows l b s m found e = elim (find_line-snoc branch_lines inv_line l s.inst found) [
    | inl (i, at, a) ↦
        let (j, at', h) = branch_lines-in-exec_lines env all i l at in
        let (s', m', er, ed) = run_line-Follows l b (jump s.snpc s) m h e in
        (s', m', decode_exec-run_line env j l s m at' a ∙ er, ed)
    | inr last ↦ absurd (none≢some (inv_branch last e))
  ]
    where
      inv_branch :
          inv_line ≡ l
          → branch_body l.name s.pc (operands s.inst l.kind m.cpu) ≡ some b
          → none ≡ some b
      inv_branch same e = ap (λ n. branch_body n.name s.pc (operands s.inst l.kind m.cpu)) same ∙ e

  -- Where `isa_decode_branch` recognises a branch, it leaves the machine as it is, and executing
  -- the instruction runs to the end and goes on at the target it gives if it says the branch is
  -- taken, else behind the instruction.
  pub isa_decode_branch-agrees :
      (b : Branch) (s : Decode) (m m' : Machine)
      → isa_decode_branch env s.pc s.inst m ≡ ok (some b, m')
      → (m ≡ m')
        × ((s' : Decode) × (m'' : Machine) × (decode_exec env s m ≡ ok (s', m''))
            × (s'.dnpc ≡ next_pc b s))
  isa_decode_branch-agrees b s m m' h =
      on_line (find_line (branch_lines ++ inv_line ∷ []) s.inst) refl
        (sym (isa_decode_branch-find_line env all s.pc s.inst m) ∙ h)
    where
      on_line :
          (found : Option (Line Name Kind))
          → find_line (branch_lines ++ inv_line ∷ []) s.inst ≡ found
          → ◌≡◌ {A = Run (Option Branch × Machine)}
              (elim found [
                | some l ↦ ok (branch_body l.name s.pc (operands s.inst l.kind m.cpu), m)
                | none ↦ ok (none, m)
              ])
              (ok (some b, m'))
          → (m ≡ m')
            × ((s' : Decode) × (m'' : Machine) × (decode_exec env s m ≡ ok (s', m''))
                × (s'.dnpc ≡ next_pc b s))
      on_line none e h = absurd (none≢some (ap (λ r. r.0) (ok_cancel h)))
      on_line (some l) e h =
          (ap (λ r. r.1) (ok_cancel h), find_line-Follows l b s m e (ap (λ r. r.0) (ok_cancel h)))
