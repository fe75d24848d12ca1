-- ===== src/Riscv/State.antt =====
-- nemu/src/isa/riscv32/include/isa-def.h, local-include/reg.h and local-include/csr.h: the state of
-- the processor, with the state of the emulator (nemu/include/utils.h) and the bus beside it.
use bailuwan.Memory.Paddr.{vaddr_write, vaddr_read, paddr_write, paddr_read}
use bailuwan.Base.Run.{undefined, assert_fail, stop, and_then, ok, Cmd, Run}
use bailuwan.Memory.Bus.{Env, Bus}
use bailuwan.Base.{ltb, ◌==◌, if◌then◌else◌, Bool, ℕ}

-- PRIV_LEVEL_U, PRIV_LEVEL_S and PRIV_LEVEL_M.
abbrev pub priv_level_u : ℕ
priv_level_u = 0b00

abbrev pub priv_level_s : ℕ
priv_level_s = 0b01

abbrev pub priv_level_m : ℕ
priv_level_m = 0b11

pub record Cpu : Type 0 where
  pub gpr : ℕ → ℕ
  pub pc : ℕ
  pub csr : ℕ → ℕ
  pub priv_level : ℕ

-- CSR_TABLE
abbrev pub csr_mstatus : ℕ
csr_mstatus = 0x300

abbrev pub csr_mtvec : ℕ
csr_mtvec = 0x305

abbrev pub csr_mepc : ℕ
csr_mepc = 0x341

abbrev pub csr_mcause : ℕ
csr_mcause = 0x342

abbrev pub csr_mtval : ℕ
csr_mtval = 0x343

abbrev pub csr_mcycle : ℕ
csr_mcycle = 0xb00

abbrev pub csr_mcycleh : ℕ
csr_mcycleh = 0xb80

abbrev pub csr_mvendorid : ℕ
csr_mvendorid = 0xf11

abbrev pub csr_marchid : ℕ
csr_marchid = 0xf12

pub data Status : Type 0 where
  nemu_running nemu_stop nemu_end nemu_abort nemu_quit : Status

-- `nemu_state`
pub record Nemu : Type 0 where
  pub state : Status
  pub halt_pc : ℕ
  pub halt_ret : ℕ

pub record Machine : Type 0 where
  pub cpu : Cpu
  pub bus : Bus
  pub nemu : Nemu

unfoldable pub update : (ℕ → ℕ) → ℕ → ℕ → ℕ → ℕ
update f i v j = if j == i then v else f j

-- `check_reg_idx` and `check_csr_idx`, as the outcome of the access that they guard: with
-- CONFIG_RT_CHECK an assertion, and without it an access outside the array.
unfoldable pub checked : Bool → ℕ → ℕ → {A : Type 0} → Run A → Run A
checked rt_check idx limit run =
    if ltb idx limit then run else if rt_check then stop assert_fail else stop undefined

module _ (env : Env) where
  -- `R(idx)` read and assigned.
  unfoldable pub gpr_read : ℕ → Cmd Machine ℕ
  unfolding checked
  gpr_read idx m = checked env.rt_check idx env.nr_gpr (ok (m.cpu.gpr idx, m))

  unfoldable pub gpr_write : ℕ → ℕ → Cmd Machine (Unit {0})
  unfolding checked update
  gpr_write idx v m =
      checked env.rt_check idx env.nr_gpr
        (ok (tt, record m { cpu = record (m.cpu) { gpr = update m.cpu.gpr idx v } }))

  -- `cpu_csr(idx)` read and assigned.
  unfoldable pub csr_read : ℕ → Cmd Machine ℕ
  unfolding checked
  csr_read idx m = checked env.rt_check idx 4096 (ok (m.cpu.csr idx, m))

  unfoldable pub csr_write : ℕ → ℕ → Cmd Machine (Unit {0})
  unfolding checked update
  csr_write idx v m =
      checked env.rt_check idx 4096
        (ok (tt, record m { cpu = record (m.cpu) { csr = update m.cpu.csr idx v } }))

  -- `Mr` and `Mw`
  unfoldable pub mem_read : ℕ → ℕ → Cmd Machine ℕ
  unfolding paddr_read
  mem_read addr len m =
      and_then (vaddr_read env addr len m.bus) λ (v, b). ok (v, record m { bus = b })

  unfoldable pub mem_write : ℕ → ℕ → ℕ → Cmd Machine (Unit {0})
  unfolding paddr_write
  mem_write addr len v m =
      and_then (vaddr_write env addr len v m.bus) λ b. ok (tt, record m { bus = b })

-- `set_nemu_state` of nemu/src/engine/interpreter/hostcall.c, without `difftest_skip_ref`.
unfoldable pub set_nemu_state : Status → ℕ → ℕ → Cmd Machine (Unit {0})
set_nemu_state state pc halt_ret m =
    ok (tt, record m { nemu = record { state = state; halt_pc = pc; halt_ret = halt_ret } })
