-- ===== src/Cpu/Batches.antt =====
-- The batches of nemu/src/cpu/difftest/ref.c against the instructions that are executed.
use bailuwan.Memory.Mmio.{in_pmem}
use bailuwan.Base.{inr, inl, Bool-cases, ℕ, ◌+◌, ◌≡◌, ap, false, if◌then◌else◌, List, [], ◌∷◌}
use bailuwan.Base.Run.{stop≢ok, ok, and_then-ok, ok_cancel}
use bailuwan.Memory.Bus.{Env, Bus}
use bailuwan.Memory.Paddr.{pmem_read, paddr_read, vaddr_ifetch}
use bailuwan.Riscv.Word.{word}
use bailuwan.Riscv.Predecode.{Branch}
use bailuwan.Cpu.Reference.{BranchEntry, entry}
use bailuwan.Cpu.Once.{Once}

-- Reading memory for an instruction does not change the state of the bus.
abbrev pub FetchStable : Env → Type 0
FetchStable env = (pc v : ℕ) (b b' : Bus) → vaddr_ifetch env pc 4 b ≡ ok (v, b') → b ≡ b'

pub no_device-FetchStable : (env : Env) → env.device ≡ false → FetchStable env
unfolding paddr_read
no_device-FetchStable env off pc v b b' h = elim (Bool-cases (in_pmem env pc)) [
  | inl inside ↦
      let (w, read, e) = and_then-ok (pmem_read env pc 4 b) _ (rw inside at h) in
      ap (λ (r : ℕ × Bus). r.1) (ok_cancel e)
  | inr outside ↦ absurd (stop≢ok (rw (outside, off) at h))
]

-- The streams agree with an execution from the first address to the last: after an instruction
-- with a branch entry it goes on where the entry says.
pub data Traced : ℕ → List ℕ → List BranchEntry → ℕ → Type 0 where
  traced_end : (pc : ℕ) → Traced pc [] [] pc
  traced_other :
      {pc next last : ℕ} {is : List ℕ} {bs : List BranchEntry}
      → Traced next is bs last
      → Traced pc (pc ∷ is) bs last
  traced_branch :
      {pc next last : ℕ} {is : List ℕ} {bs : List BranchEntry} (b : Branch)
      → next ≡ (if b.taken then b.target_addr else word (pc + 4))
      → Traced next is bs last
      → Traced pc (pc ∷ is) (entry pc b ∷ bs) last
