-- ===== src/Riscv/Dispatch.antt =====
-- Which line of `decode_exec` an instruction takes.
use bailuwan.Base.Run.{pure, ◌>>◌}
use bailuwan.Decode.Digits.{agrees}
use bailuwan.Decode.Pattern.{Line}
use bailuwan.Riscv.State.{gpr_write, Machine}
use bailuwan.Base.{none, get_elem?, some, [], refl, ◌∷◌, ◌++◌, true, ◌≡◌, ℕ}
use bailuwan.Riscv.Exec.{jump, Decode}
use bailuwan.Riscv.Lines.{Kind, Name, inv_line, exec_lines}
use bailuwan.Memory.Bus.{Env}
use bailuwan.Riscv.Body.{run_line, decode_exec}
use bailuwan.Decode.Lines.{
  first_match-find_line, find_line-unambiguous, find_line, unambiguous, valid,
}

exec_lines-valid : valid exec_lines ≡ true
unfolding valid exec_lines
exec_lines-valid = refl

exec_lines-unambiguous : unambiguous exec_lines ≡ true
unfolding unambiguous exec_lines
exec_lines-unambiguous = refl

with_inv-valid : valid (exec_lines ++ inv_line ∷ []) ≡ true
unfolding valid exec_lines inv_line
with_inv-valid = refl

-- The generated matching code never stops, and takes the first line that agrees.
pub decode_exec-find_line :
    (env : Env) (s : Decode) (m : Machine)
    → decode_exec env s m ≡ elim (find_line (exec_lines ++ inv_line ∷ []) s.inst) [
      | some l ↦ run_line env l (jump s.snpc s) m
      | none ↦ (do gpr_write env 0 0; pure (jump s.snpc s)) m
    ]
unfolding decode_exec
decode_exec-find_line env s m =
    rw (first_match-find_line (exec_lines ++ inv_line ∷ []) s.inst with_inv-valid)

-- An instruction that agrees with the pattern of any line but the last executes that line: the
-- order of the lines does not matter.
pub decode_exec-run_line :
    (env : Env) (i : ℕ) (l : Line Name Kind) (s : Decode) (m : Machine)
    → get_elem? exec_lines i ≡ some l
    → agrees l.pattern s.inst ≡ true
    → decode_exec env s m ≡ run_line env l (jump s.snpc s) m
decode_exec-run_line env i l s m at a =
    let found =
      find_line-unambiguous exec_lines (inv_line ∷ []) i s.inst l exec_lines-valid
        exec_lines-unambiguous at a in
    rw (decode_exec-find_line env s m, found)
