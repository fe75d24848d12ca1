-- ===== src/Device/Port.antt =====
-- The registers of a device.
use bailuwan.Base.{ℕ, ◌==◌, if◌then◌else◌}

-- The 32-bit registers behind a `uint32_t *`, by index.
abbrev pub Registers : Type 0
Registers = ℕ → ℕ

abbrev pub set_register : Registers → ℕ → ℕ → Registers
set_register base i v j = if j == i then v else base j
