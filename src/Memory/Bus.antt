-- ===== src/Memory/Bus.antt =====
-- The state that the memory and device code keeps, and the configuration that it is built with.
use bailuwan.Base.{ℕ, Bool, Option, List}
use bailuwan.Base.Run.{Run}
use bailuwan.Memory.Host.{Memory}

-- `space` is the offset of the registers in `io_space`. `callback` stands for the function
-- pointer, with `none` for NULL.
pub record IoMap : Type 0 where
  pub low : ℕ
  pub high : ℕ
  pub space : ℕ
  pub callback : Option ℕ

-- `maps` holds the first `nr_map` entries of the array. `p_space` is an offset in `io_space`.
pub record Bus : Type 0 where
  pub pmem : Memory
  pub io_space : Memory
  pub p_space : ℕ
  pub maps : List IoMap
  pub in_difftest_tracesim : Bool

-- CONFIG_MBASE, CONFIG_MSIZE, CONFIG_RT_CHECK, CONFIG_DEVICE, the number of registers
-- (CONFIG_RVE), CONFIG_PC_RESET_OFFSET, and what a call of a device's function pointer does.
pub record Env : Type 0 where
  pub mbase : ℕ
  pub msize : ℕ
  pub rt_check : Bool
  pub device : Bool
  pub nr_gpr : ℕ
  pub pc_reset_offset : ℕ
  pub call : ℕ → ℕ → ℕ → Bool → Bus → Run Bus
