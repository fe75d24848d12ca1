-- ===== src/Cpu/Reset.antt =====
-- nemu/src/isa/riscv32/init.c and nemu/src/utils/state.c: the state at the start, and the verdict at
-- the end.
use bailuwan.Base.{
  false, length, true, ◌*◌, [], not, ◌==◌, leb, ◌+◌, ◌∷◌, Bool, if◌then◌else◌, ℕ, List,
}
use bailuwan.Base.Run.{Run, ok, stop, undefined}
use bailuwan.Memory.Bus.{Env}
use bailuwan.Memory.Host.{Memory, store}
use bailuwan.Riscv.State.{
  Machine, Cpu, Nemu, Status, nemu_end, nemu_quit, update, csr_mstatus, csr_mcycle, csr_mcycleh,
  csr_mvendorid, csr_marchid, priv_level_m,
}

-- `img`
unfoldable pub img : List ℕ
img = 0x0000_0297 ∷ 0x0002_8823 ∷ 0x0102_c503 ∷ 0x0010_0073 ∷ 0xdead_beef ∷ []

-- The words, one behind the other from offset `p` on.
unfoldable pub copy_words : Memory → ℕ → List ℕ → Memory
unfolding store
copy_words m p [] = m
copy_words m p (v ∷ vs) = copy_words (store m p 4 v) (p + 4) vs

module _ (env : Env) where
  -- RESET_VECTOR
  abbrev pub reset_vector : ℕ
  reset_vector = env.mbase + env.pc_reset_offset

  unfoldable pub restart : Cpu → Cpu
  unfolding update
  restart c = record {
    pc = reset_vector;
    gpr = update c.gpr 0 0;
    csr =
        update
          (update (update (update (update c.csr csr_mstatus 0x1800) csr_mcycle 0) csr_mcycleh 0)
            csr_mvendorid 0x7973_7978)
          csr_marchid 25100251;
    priv_level = priv_level_m;
  }

  unfoldable pub init_isa : Machine → Run Machine
  unfolding img copy_words restart
  init_isa m =
      let p = env.pc_reset_offset in
      if leb (p + 4 * length img) env.msize
      then ok (record m {
        bus = record (m.bus) { pmem = copy_words m.bus.pmem p img };
        cpu = restart m.cpu;
      })
      else stop undefined

-- `is_exit_status_bad`
abbrev good_end : Status → ℕ → Bool
good_end nemu_end halt_ret = halt_ret == 0
good_end nemu_quit halt_ret = true
good_end _ halt_ret = false

unfoldable pub is_exit_status_bad : Nemu → Bool
is_exit_status_bad n = not (good_end n.state n.halt_ret)
