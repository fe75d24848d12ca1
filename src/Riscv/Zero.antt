-- ===== src/Riscv/Zero.antt =====
-- Register 0.
use bailuwan.Decode.Lines.{find_line}
use bailuwan.Riscv.Operand.{decode_operand}
use mathlib.Core.Path.{subst}
use bailuwan.Riscv.Lines.{exec_lines, inv_line, Kind, Name}
use bailuwan.Base.{none, ◌∙◌, [], ◌∷◌, ◌++◌, inr, sym, some, inl, ltb, Option, ap, Bool-cases, ◌≡◌}
use bailuwan.Riscv.Dispatch.{decode_exec-find_line}
use bailuwan.Riscv.Body.{body, decode_exec, run_line}
use bailuwan.Riscv.Exec.{Decode, jump}
use bailuwan.Riscv.State.{Machine, gpr_write, checked, update}
use bailuwan.Base.Run.{stop≢ok, Run, ok, and_then-ok, ok_cancel, pure, ◌>>◌}
use bailuwan.Memory.Bus.{Env}
use bailuwan.Decode.Pattern.{Line}

module _ (env : Env) where
  gpr_write-zero :
      (m m' : Machine) (u : Unit {0}) → gpr_write env 0 0 m ≡ ok (u, m') → m'.cpu.gpr 0 ≡ 0
  unfolding gpr_write checked update
  gpr_write-zero m m' u h = elim (Bool-cases (ltb 0 env.nr_gpr)) [
    | inl there ↦
        let e = ok_cancel (rw there at h) in sym (ap (λ (r : Unit {0} × Machine). r.1.cpu.gpr 0) e)
    | inr absent ↦ elim (Bool-cases env.rt_check) [
      | inl checks ↦ absurd (stop≢ok (rw (absent, checks) at h))
      | inr free ↦ absurd (stop≢ok (rw (absent, free) at h))
    ]
  ]

  -- Code that ends with `R(0) = 0` and then returns.
  reset-gpr :
      (s s' : Decode) (m m' : Machine)
      → (do gpr_write env 0 0; pure s) m ≡ ok (s', m')
      → m'.cpu.gpr 0 ≡ 0
  reset-gpr s s' m m' h =
      let ((u, m1), wrote, e) = and_then-ok (gpr_write env 0 0 m) _ h in
      let same : m1 ≡ m' = ap (λ (r : Decode × Machine). r.1) (ok_cancel e) in
      subst (λ (c : Machine). c.cpu.gpr 0 ≡ 0) same (gpr_write-zero m m1 u wrote)

  run_line-zero :
      (l : Line Name Kind) (s s' : Decode) (m m' : Machine)
      → run_line env l s m ≡ ok (s', m')
      → m'.cpu.gpr 0 ≡ 0
  unfolding run_line
  run_line-zero l s s' m m' h =
      let ((o, m1), operands_read, e) = and_then-ok (decode_operand env s.inst l.kind m) _ h in
      let ((s1, m2), ran, e') = and_then-ok (body env l.name s o m1) _ e in reset-gpr s1 s' m2 m' e'

  -- Whatever the instruction, after a call of `decode_exec` that returns register 0 is 0.
  pub decode_exec-zero :
      (s s' : Decode) (m m' : Machine) → decode_exec env s m ≡ ok (s', m') → m'.cpu.gpr 0 ≡ 0
  decode_exec-zero s s' m m' h =
      on_line (find_line (exec_lines ++ inv_line ∷ []) s.inst)
        (sym (decode_exec-find_line env s m) ∙ h)
    where
      on_line :
          (found : Option (Line Name Kind))
          → ◌≡◌ {A = Run (Decode × Machine)}
              (elim found [
                | some l ↦ run_line env l (jump s.snpc s) m
                | none ↦ (do gpr_write env 0 0; pure (jump s.snpc s)) m
              ])
              (ok (s', m'))
          → m'.cpu.gpr 0 ≡ 0
      on_line none e = reset-gpr (jump s.snpc s) s' m m' e
      on_line (some l) e = run_line-zero l (jump s.snpc s) s' m m' e
