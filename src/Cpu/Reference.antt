-- ===== src/Cpu/Reference.antt =====
-- nemu/src/cpu/difftest/ref.c: the emulator as the reference of another simulator, and the batches
-- of accesses and branches that the cache and branch simulators read.
use bailuwan.Base.{
  ℕ, zero, suc, Bool, true, false, if◌then◌else◌, List, [], ◌∷◌, Option, none, some, ltb,
}
use bailuwan.Base.Run.{Run, ok, and_then}
use bailuwan.Memory.Bus.{Env}
use bailuwan.Memory.Paddr.{vaddr_ifetch}
use bailuwan.Riscv.State.{Cpu, Status, nemu_end, nemu_abort, nemu_quit}
use bailuwan.Riscv.Exec.{Decode}
use bailuwan.Riscv.Predecode.{LoadStore, Branch, isa_decode_ldstr, isa_decode_branch}
use bailuwan.Cpu.Exec.{System, Hooks, cpu_exec}

-- The registers in the layout of `diff_context_t`.
pub record DiffContext : Type 0 where
  pub gpr : ℕ → ℕ
  pub pc : ℕ
  pub csr : ℕ → ℕ

-- An array, of which the first `n` entries are assigned.
unfoldable pub assign_first : ℕ → (ℕ → ℕ) → (ℕ → ℕ) → ℕ → ℕ
assign_first n new old i = if ltb i n then new i else old i

-- `csr_name(i) != NULL` holds for every `i`: a CSR without a name has the name "unknown".
unfoldable pub regcpy_to_ref : DiffContext → Cpu → Cpu
unfolding assign_first
regcpy_to_ref ctx cpu = record cpu {
  pc = ctx.pc;
  gpr = assign_first 32 ctx.gpr cpu.gpr;
  csr = assign_first 4096 ctx.csr cpu.csr;
}

unfoldable pub regcpy_to_dut : DiffContext → Cpu → DiffContext
unfolding assign_first
regcpy_to_dut ctx cpu = record {
  pc = cpu.pc;
  gpr = assign_first 32 cpu.gpr ctx.gpr;
  csr = assign_first 4096 cpu.csr ctx.csr;
}

pub record BranchEntry : Type 0 where
  pub pc : ℕ
  pub target : ℕ
  pub is_uncond : Bool
  pub taken : Bool

-- The streams of a batch; their lengths are its sizes.
pub record Batch : Type 0 where
  pub i_stream : List ℕ
  pub d_stream : List LoadStore
  pub b_stream : List BranchEntry

abbrev pub add_access : Option LoadStore → List LoadStore → List LoadStore
add_access none ds = ds
add_access (some a) ds = a ∷ ds

abbrev pub entry : ℕ → Branch → BranchEntry
entry pc b = record { pc = pc; target = b.target_addr; is_uncond = b.is_uncond; taken = b.taken }

abbrev pub add_branch : ℕ → Option Branch → List BranchEntry → List BranchEntry
add_branch pc none bs = bs
add_branch pc (some b) bs = entry pc b ∷ bs

abbrev pub has_ended : Status → Bool
has_ended nemu_end = true
has_ended nemu_abort = true
has_ended nemu_quit = true
has_ended _ = false

-- The entries of one round before those of the rounds after it.
abbrev pub add_round : ℕ → Option LoadStore → Option Branch → Batch → Batch
add_round pc a b batch = record {
  i_stream = pc ∷ batch.i_stream;
  d_stream = add_access a batch.d_stream;
  b_stream = add_branch pc b batch.b_stream;
}

abbrev pub empty_batch : Batch
empty_batch = record { i_stream = []; d_stream = []; b_stream = [] }

-- `s` is the uninitialised local of `execute`.
module _ (env : Env) (hooks : Hooks) (s : Decode) where
  -- `n` is `tracesim_batch_size - i`.
  unfoldable pub difftest_tracesim_step : ℕ → System → Run (Batch × System)
  difftest_tracesim_step zero sys = ok (empty_batch, sys)
  difftest_tracesim_step (suc n) sys =
      let pc = sys.machine.cpu.pc in
      and_then (vaddr_ifetch env pc 4 sys.machine.bus) λ (inst, bus).
        and_then (isa_decode_ldstr env inst (record (sys.machine) { bus = bus })) λ (a, m1).
          and_then (isa_decode_branch env pc inst m1) λ (b, m2).
            and_then (cpu_exec env hooks 1 s (record sys { machine = m2 })) λ sys'.
              let rest = difftest_tracesim_step n sys' in
              and_then (if has_ended sys'.machine.nemu.state then ok (empty_batch, sys') else rest)
                λ (batch, sys''). ok (add_round pc a b batch, sys'')
