-- ===== src/Cpu/Difftest.antt =====
-- nemu/src/cpu/difftest/dut.c and nemu/src/isa/riscv32/difftest/dut.c: the comparison with a
-- reference, which is another program that this one loads. Messages are left out.
use bailuwan.Base.{ℕ, zero, suc, ◌+◌, ◌-◌, Bool, true, false, ◌==◌, if◌then◌else◌}
use bailuwan.Base.Run.{Run, ok, stop, panic}
use bailuwan.Riscv.State.{Machine, Cpu, nemu_abort}

-- What `dlsym` finds in the reference: `ref_difftest_exec(1)`, and `ref_difftest_regcpy` in its two
-- directions.
pub record Reference (R : Type 0) : Type 0 where
  pub exec : R → R
  pub regs : R → Cpu
  pub set_regs : Cpu → R → R

pub record Difftest (R : Type 0) : Type 0 where
  pub is_skip_ref : Bool
  pub skip_dut_nr_inst : ℕ
  pub ref : R

-- The registers from `i` on, `n` of them.
unfoldable pub checkregs_loop : ℕ → ℕ → Cpu → Cpu → Bool
checkregs_loop zero i ref_r cpu = true
checkregs_loop (suc n) i ref_r cpu =
    let rest = checkregs_loop n (i + 1) ref_r cpu in
    if ref_r.gpr i == cpu.gpr i then rest else false

unfoldable pub isa_difftest_checkregs : Cpu → Cpu → Bool
isa_difftest_checkregs ref_r cpu =
    if checkregs_loop 32 0 ref_r cpu then ref_r.pc == cpu.pc else false

unfoldable pub checkregs : Cpu → ℕ → Machine → Machine
checkregs ref_r pc m =
    if isa_difftest_checkregs ref_r m.cpu
    then m
    else record m { nemu = record (m.nemu) { state = nemu_abort; halt_pc = pc } }

module _ {R : Type 0} (reference : Reference R) where
  unfoldable pub difftest_skip_ref : Difftest R → Difftest R
  difftest_skip_ref d = record d { is_skip_ref = true; skip_dut_nr_inst = 0 }

  unfoldable pub exec_ref : ℕ → R → R
  exec_ref zero r = r
  exec_ref (suc nr_ref) r = exec_ref nr_ref (reference.exec r)

  unfoldable pub difftest_skip_dut : ℕ → ℕ → Difftest R → Difftest R
  unfolding exec_ref
  difftest_skip_dut nr_ref nr_dut d = record d {
    skip_dut_nr_inst = d.skip_dut_nr_inst + nr_dut;
    ref = exec_ref nr_ref d.ref;
  }

  -- With `skip_dut_nr_inst > 0`.
  unfoldable pub catch_up : ℕ → Machine → Difftest R → Run (Machine × Difftest R)
  catch_up npc m d =
      let ref_r = reference.regs d.ref in
      if ref_r.pc == npc
      then ok (checkregs ref_r npc m, record d { skip_dut_nr_inst = 0 })
      else if d.skip_dut_nr_inst - 1 == 0
      then stop panic
      else ok (m, record d { skip_dut_nr_inst = d.skip_dut_nr_inst - 1 })

  unfoldable pub compare_step : ℕ → Machine → Difftest R → Machine × Difftest R
  compare_step pc m d =
      if d.is_skip_ref
      then (m, record d { is_skip_ref = false; ref = reference.set_regs m.cpu d.ref })
      else let ref' = reference.exec d.ref in
        (checkregs (reference.regs ref') pc m, record d { ref = ref' })

  unfoldable pub difftest_step : ℕ → ℕ → Machine → Difftest R → Run (Machine × Difftest R)
  unfolding catch_up compare_step
  difftest_step pc npc m d =
      if d.skip_dut_nr_inst == 0 then ok (compare_step pc m d) else catch_up npc m d
