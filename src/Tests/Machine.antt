-- ===== src/Tests/Machine.antt =====
-- Single instructions on the small machine.
use bailuwan.Tests.Setup.{exec_inst, machine}
use bailuwan.Base.Run.{ok, and_then, Run}
use bailuwan.Base.{refl, ◌≡◌, ℕ}

abbrev reg_after : ℕ → ℕ → Run ℕ
reg_after inst i = and_then (exec_inst inst machine) λ (s, m). ok (m.cpu.gpr i)

abbrev pc_after : ℕ → Run ℕ
pc_after inst = and_then (exec_inst inst machine) λ (s, m). ok s.dnpc

-- addi x1, x0, 5
addi_run : reg_after 0x0050_0093 1 ≡ ok 5
unfolding exec_inst
addi_run = refl

-- lui x5, 0x12345
lui_run : reg_after 0x1234_52b7 5 ≡ ok 0x1234_5000
unfolding exec_inst
lui_run = refl

-- beq x0, x0, -4
beq_run : pc_after 0xfe00_0ee3 ≡ ok 0x7fff_fffc
unfolding exec_inst
beq_run = refl
