-- ===== src/Cpu/CatchUp.antt =====
-- What the comparison of nemu/src/cpu/difftest/dut.c finds, and when it stops waiting.
use mathlib.Core.Path.{subst}
use bailuwan.Base.{
  sym, false≢true, ◌∙◌, ◌⊎◌, Bool-cases, ℕ, zero, suc, ◌+◌, ◌-◌, ◌<◌, ◌≤◌, ◌≡◌, ◌≢◌, refl, true,
  false, ◌==◌, List, [], ◌∷◌, ◌++◌, length, arith, inl, inr,
}
use bailuwan.Base.Run.{Run, ok, stop, panic, and_then}
use bailuwan.Riscv.State.{nemu_abort, Machine, Cpu}
use bailuwan.Cpu.Difftest.{
  Reference, Difftest, checkregs_loop, isa_difftest_checkregs, checkregs, difftest_step,
}

-- The registers that `isa_difftest_checkregs` compares are the same.
abbrev pub SameRegs : Cpu → Cpu → Type 0
SameRegs c d = ((i : ℕ) → i < 32 → c.gpr i ≡ d.gpr i) × (c.pc ≡ d.pc)

checkregs_loop-same :
    (n i : ℕ) (c d : Cpu)
    → checkregs_loop n i c d ≡ true
    → (j : ℕ) → i ≤ j
    → j < i + n
    → c.gpr j ≡ d.gpr j
unfolding checkregs_loop
checkregs_loop-same zero i c d h j lo hi = absurd (omega arith)
checkregs_loop-same (suc n) i c d h j lo hi = elim (Bool-cases (c.gpr i == d.gpr i)) [
  | inl same ↦ elim (Bool-cases (i == j)) [
    | inl here ↦ let at : i ≡ j = ground arith in subst (λ k. c.gpr k ≡ d.gpr k) at (ground arith)
    | inr later ↦ checkregs_loop-same n (i + 1) c d (rw same at h) j (ground arith) (omega arith)
  ]
  | inr differ ↦ absurd (false≢true (rw differ at h))
]

same-checkregs_loop :
    (n i : ℕ) (c d : Cpu)
    → ((j : ℕ) → i ≤ j → j < i + n → c.gpr j ≡ d.gpr j)
    → checkregs_loop n i c d ≡ true
unfolding checkregs_loop
same-checkregs_loop zero i c d h = refl
same-checkregs_loop (suc n) i c d h =
    let rest = same-checkregs_loop n (i + 1) c d (λ j lo hi. h j (omega arith) (omega arith)) in
    ground (arith, rest, h i (omega arith) (omega arith))

checkregs_true : (c d : Cpu) → isa_difftest_checkregs c d ≡ true → SameRegs c d
unfolding isa_difftest_checkregs
checkregs_true c d h = elim (Bool-cases (checkregs_loop 32 0 c d)) [
  | inl same ↦ (
    λ i hi. checkregs_loop-same 32 0 c d same i (omega arith) (omega arith),
    ground (arith, rw same at h),
  )
  | inr differ ↦ absurd (false≢true (rw differ at h))
]

same-checkregs : (c d : Cpu) → SameRegs c d → isa_difftest_checkregs c d ≡ true
unfolding isa_difftest_checkregs
same-checkregs c d (gpr, pc) =
    rw (same-checkregs_loop 32 0 c d (λ j lo hi. gpr j (omega arith))) (ground (arith, pc))

-- The comparison leaves the machine as it is if the registers are the same, and aborts otherwise.
pub checkregs-SameRegs :
    (ref_r : Cpu) (pc : ℕ) (m : Machine)
    → (SameRegs ref_r m.cpu × (checkregs ref_r pc m ≡ m))
      ⊎ ((¬ SameRegs ref_r m.cpu)
          × ((checkregs ref_r pc m).nemu.state ≡ nemu_abort)
          × ((checkregs ref_r pc m).nemu.halt_pc ≡ pc))
unfolding checkregs
checkregs-SameRegs ref_r pc m = elim (Bool-cases (isa_difftest_checkregs ref_r m.cpu)) [
  | inl same ↦ inl (checkregs_true ref_r m.cpu same, rw same refl)
  | inr differ ↦
      inr (
        λ h. false≢true (sym differ ∙ same-checkregs ref_r m.cpu h),
        rw differ refl,
        rw differ refl,
      )
]

module _ {R : Type 0} (reference : Reference R) where
  -- The steps of the device under test, each with the address it starts from and the state it ends in.
  abbrev pub Steps : Type 0
  Steps = List (ℕ × Machine)

  unfoldable pub difftest_steps : Steps → Machine → Difftest R → Run (Machine × Difftest R)
  difftest_steps [] m d = ok (m, d)
  difftest_steps ((pc, m) ∷ steps) m0 d =
      and_then (difftest_step reference pc m.cpu.pc m d) λ (m', d'). difftest_steps steps m' d'

  -- No step ends at the address of the reference.
  abbrev pub Behind : ℕ → Steps → Type 0
  Behind pc [] = Unit {0}
  Behind pc ((p, m) ∷ steps) = (pc ≢ m.cpu.pc) × Behind pc steps

  steps-Behind :
      (steps after : Steps) (m0 : Machine) (d : Difftest R)
      → Behind (reference.regs d.ref).pc steps
      → length steps < d.skip_dut_nr_inst
      → (m1 : Machine) × (difftest_steps (steps ++ after) m0 d
          ≡ difftest_steps after m1
              (record d { skip_dut_nr_inst = d.skip_dut_nr_inst - length steps }))
  unfolding difftest_steps difftest_step
  steps-Behind [] after m0 d behind waits =
      let none_less : d.skip_dut_nr_inst - 0 ≡ d.skip_dut_nr_inst = omega arith in
      (m0, rw none_less refl)
  steps-Behind ((p, m) ∷ steps) after m0 d (apart, behind) waits =
      let waiting : (d.skip_dut_nr_inst == 0) ≡ false = ground arith in
      let other : ((reference.regs d.ref).pc == m.cpu.pc) ≡ false = ground arith in
      let not_last : (d.skip_dut_nr_inst - 1 == 0) ≡ false = ground arith in
      let d1 : Difftest R = record d { skip_dut_nr_inst = d.skip_dut_nr_inst - 1 } in
      let (m1, rest) = steps-Behind steps after m d1 behind (omega arith) in
      let left : d.skip_dut_nr_inst - 1 - length steps ≡ d.skip_dut_nr_inst - suc (length steps) =
        omega arith in
      (m1, rw (waiting, other, not_last, ← left) rest)

  -- While the comparison is to be skipped, the reference stands still. The step that reaches its
  -- address is compared with it and ends the skipping; if as many steps as may be skipped do not
  -- reach it, the program panics.
  pub difftest_steps-catch_up :
      (steps : Steps) (p : ℕ) (m m0 : Machine) (d : Difftest R)
      → Behind (reference.regs d.ref).pc steps
      → suc (length steps) ≤ d.skip_dut_nr_inst
      → ((reference.regs d.ref).pc ≡ m.cpu.pc
          → difftest_steps (steps ++ (p, m) ∷ []) m0 d
            ≡ ok (checkregs (reference.regs d.ref) m.cpu.pc m, record d { skip_dut_nr_inst = 0 }))
        × ((reference.regs d.ref).pc ≢ m.cpu.pc
            → suc (length steps) ≡ d.skip_dut_nr_inst
            → difftest_steps (steps ++ (p, m) ∷ []) m0 d ≡ stop panic)
  unfolding difftest_steps difftest_step
  difftest_steps-catch_up steps p m m0 d behind waits =
      let (m1, run) = steps-Behind steps ((p, m) ∷ []) m0 d behind (omega arith) in
      let waiting : (d.skip_dut_nr_inst - length steps == 0) ≡ false = ground arith in
      (
        λ reached.
            let here : ((reference.regs d.ref).pc == m.cpu.pc) ≡ true = ground arith in
            run ∙ rw (waiting, here) refl,
        λ missed last.
            let other : ((reference.regs d.ref).pc == m.cpu.pc) ≡ false = ground arith in
            let ends : (d.skip_dut_nr_inst - length steps - 1 == 0) ≡ true = ground arith in
            run ∙ rw (waiting, other, ends) refl,
      )
