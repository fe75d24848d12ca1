-- ===== src/Cpu/Once.antt =====
-- One call of `cpu_exec(1)` of nemu/src/cpu/cpu-exec.c, and the state that the predecoders leave.
use bailuwan.Decode.Lines.{find_line}
use bailuwan.Riscv.Operand.{decode_operand}
use bailuwan.Sdb.Breakpoint.{is_running}
use bailuwan.Riscv.Lines.{ldstr_lines, branch_lines, inv_line, Kind, Name}
use bailuwan.Decode.Pattern.{first_match, Line}
use bailuwan.Base.{
  ◌++◌, ◌^◌, ◌%◌, true≢false, ℕ, ◌+◌, ◌≡◌, sym, ap, ◌∙◌, Bool, true, false, if◌then◌else◌, [], ◌∷◌,
  Option, none, some, arith,
}
use bailuwan.Base.Run.{pure, ◌>>=◌, Run, ok, and_then, and_then-ok, ok_cancel}
use bailuwan.Memory.Bus.{Env}
use bailuwan.Riscv.State.{Machine, Status, nemu_running, nemu_stop, nemu_end, nemu_abort, nemu_quit}
use bailuwan.Riscv.Exec.{Decode}
use bailuwan.Riscv.Step.{decode_operand-operands, operands, HasAllRegs}
use bailuwan.Riscv.Predecode.{
  ldstr_body, branch_body, LoadStore, Branch, isa_decode_ldstr, isa_decode_branch,
}
use bailuwan.Riscv.Agreement.{isa_decode_branch-find_line}
use bailuwan.Cpu.Exec.{
  finish, set_state, System, Hooks, cpu_exec_at, execute, exec_once, trace_and_difftest,
}
use bailuwan.Cpu.Reference.{has_ended}

abbrev pub no_hooks : Hooks
no_hooks = record { watchpoint = false; breakpoint = false }

either_way : (b : Bool) (x y : System) → (if b then ok x else ok x) ≡ ok y → x ≡ y
either_way true x y h = ok_cancel h
either_way false x y h = ok_cancel h

module _ (env : Env) where
  -- What one call of `cpu_exec(1)` executes, if the program has not ended before.
  abbrev pub Once : Decode → System → System → Type 0
  Once s sys sys' =
      (s' : Decode) × (m : Machine) × (exec_once env no_hooks s sys.machine.cpu.pc
          (set_state nemu_running sys).machine
        ≡ ok (s', m))
      × (sys'.machine.cpu.pc ≡ m.cpu.pc)

  finish_pc : (sys : System) → (finish sys).machine.cpu.pc ≡ sys.machine.cpu.pc
  finish_pc sys = ground arith

  executed_pc :
      (s : Decode) (sys sys' : System)
      → execute env no_hooks 1 s sys ≡ ok sys'
      → (s' : Decode) × (m : Machine) × (exec_once env no_hooks s sys.machine.cpu.pc sys.machine
          ≡ ok (s', m))
        × (sys'.machine.cpu.pc ≡ m.cpu.pc)
  unfolding execute trace_and_difftest
  executed_pc s sys sys' run =
      let ((s1, m), once, rest) =
        and_then-ok (exec_once env no_hooks s sys.machine.cpu.pc sys.machine) _ run in
      let sys1 : System = record sys {
        machine = m;
        nr_guest_inst = (sys.nr_guest_inst + 1) % 2 ^ 64;
      } in
      (
        s1,
        m,
        once,
        ap (λ (t : System). t.machine.cpu.pc)
            (sym (either_way (is_running m.nemu.state) sys1 sys' rest)),
      )

  execute-Once :
      (s : Decode) (sys sys' : System)
      → and_then (execute env no_hooks 1 s (set_state nemu_running sys)) (λ sys1. ok (finish sys1))
        ≡ ok sys'
      → Once s sys sys'
  execute-Once s sys sys' h =
      let (sys1, run, e) =
        and_then-ok (execute env no_hooks 1 s (set_state nemu_running sys)) _ h in
      let (s1, m, once, pc) = executed_pc s (set_state nemu_running sys) sys1 run in
      (s1, m, once, ap (λ (t : System). t.machine.cpu.pc) (sym (ok_cancel e)) ∙ finish_pc sys1 ∙ pc)

  pub cpu_exec_at-Once :
      (t : Status) (s : Decode) (sys sys' : System)
      → has_ended t ≡ false
      → cpu_exec_at env no_hooks t 1 s sys ≡ ok sys'
      → Once s sys sys'
  unfolding cpu_exec_at
  cpu_exec_at-Once nemu_end s sys sys' live h = absurd (true≢false live)
  cpu_exec_at-Once nemu_abort s sys sys' live h = absurd (true≢false live)
  cpu_exec_at-Once nemu_quit s sys sys' live h = absurd (true≢false live)
  cpu_exec_at-Once nemu_running s sys sys' live h = execute-Once s sys sys' h
  cpu_exec_at-Once nemu_stop s sys sys' live h = execute-Once s sys sys' h

module _ (env : Env) (all : HasAllRegs env) where
  -- The predecoders read the registers only.
  pub isa_decode_branch-cpu :
      (pc inst : ℕ) (r : Option Branch) (m m' n : Machine)
      → isa_decode_branch env pc inst m ≡ ok (r, m')
      → n.cpu ≡ m.cpu
      → (m ≡ m') × (isa_decode_branch env pc inst n ≡ ok (r, n))
  isa_decode_branch-cpu pc inst r m m' n h same =
      on_line (find_line (branch_lines ++ inv_line ∷ []) inst)
        (sym (isa_decode_branch-find_line env all pc inst m) ∙ h)
        (isa_decode_branch-find_line env all pc inst n)
    where
      on_line :
          (found : Option (Line Name Kind))
          → ◌≡◌ {A = Run (Option Branch × Machine)}
              (elim found [
                | some l ↦ ok (branch_body l.name pc (operands inst l.kind m.cpu), m)
                | none ↦ ok (none, m)
              ])
              (ok (r, m'))
          → isa_decode_branch env pc inst n ≡ elim found [
            | some l ↦ ok (branch_body l.name pc (operands inst l.kind n.cpu), n)
            | none ↦ ok (none, n)
          ]
          → (m ≡ m') × (isa_decode_branch env pc inst n ≡ ok (r, n))
      on_line none h e = (
        ap (λ x. x.1) (ok_cancel h),
        e ∙ ap (λ (t : Option Branch). ok (t, n)) (ap (λ x. x.0) (ok_cancel h)),
      )
      on_line (some l) h e = (
        ap (λ x. x.1) (ok_cancel h),
        e
            ∙ ap (λ c. ok (branch_body l.name pc (operands inst l.kind c), n)) same
            ∙ ap (λ (t : Option Branch). ok (t, n)) (ap (λ x. x.0) (ok_cancel h)),
      )

  pub isa_decode_ldstr-same :
      (inst : ℕ) (r : Option LoadStore) (m m' : Machine)
      → isa_decode_ldstr env inst m ≡ ok (r, m')
      → m ≡ m'
  unfolding isa_decode_ldstr
  isa_decode_ldstr-same inst r m m' h =
      let (found, run, rest) = and_then-ok (first_match (ldstr_lines ++ inv_line ∷ []) inst) _ h in
      on_line found rest
    where
      on_line :
          (found : Option (Line Name Kind))
          → ◌≡◌ {A = Run (Option LoadStore × Machine)}
              (elim found [
                | some l ↦ (do o ← decode_operand env inst l.kind; pure (ldstr_body l.name o)) m
                | none ↦ ok (none, m)
              ])
              (ok (r, m'))
          → m ≡ m'
      on_line none h = ap (λ x. x.1) (ok_cancel h)
      on_line (some l) h =
          ap (λ x. x.1) (ok_cancel (rw (decode_operand-operands env all inst l.kind m) at h))
