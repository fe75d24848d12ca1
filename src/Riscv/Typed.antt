-- ===== src/Riscv/Typed.antt =====
-- Machines of which the registers hold words and the memory holds bytes.
use bailuwan.Memory.Paddr.{paddr_write, paddr_read}
use mathlib.Core.Path.{subst}
use bailuwan.Base.Keeps.{Keeps}
use bailuwan.Base.{ℕ, ◌^◌, ◌<◌, ◌≡◌, Bool, ltb, Bool-cases, inl, inr, arith}
use bailuwan.Base.Run.{Run, ok, stop≢ok, ok_cancel, and_then-ok}
use bailuwan.Memory.Bus.{Bus, Env}
use bailuwan.Memory.BusBytes.{IsBus, CallsKeepBytes, paddr_read-IsBus, paddr_write-IsBus}
use bailuwan.Riscv.State.{
  Machine, Status, update, checked, gpr_read, gpr_write, csr_read, csr_write, mem_read, mem_write,
  set_nemu_state,
}

-- Every element of a register file is a word.
abbrev pub AllWords : (ℕ → ℕ) → Type 0
AllWords f = (i : ℕ) → f i < 2 ^ 32

pub record IsMachine (m : Machine) : Type 0 where
  pub gpr_words : AllWords m.cpu.gpr
  pub csr_words : AllWords m.cpu.csr
  pub pc_word : m.cpu.pc < 2 ^ 32
  pub priv_in : m.cpu.priv_level < 4
  pub bus_bytes : IsBus m.bus

abbrev pub IsWord : ℕ → Type 0
IsWord v = v < 2 ^ 32

abbrev pub Nothing : Unit {0} → Type 0
Nothing u = Unit {0}

checked-ok :
    {A : Type 0} (rt_check : Bool) (idx limit : ℕ) (run : Run A) (a : A)
    → checked rt_check idx limit run ≡ ok a
    → run ≡ ok a
unfolding checked
checked-ok rt_check idx limit run a h = elim (Bool-cases (ltb idx limit)) [
  | inl inside ↦ rw inside at h
  | inr outside ↦ elim (Bool-cases rt_check) [
    | inl checks ↦ absurd (stop≢ok (rw (outside, checks) at h))
    | inr free ↦ absurd (stop≢ok (rw (outside, free) at h))
  ]
]

update-AllWords : (f : ℕ → ℕ) (i v : ℕ) → AllWords f → v < 2 ^ 32 → AllWords (update f i v)
unfolding update
update-AllWords f i v words h j = ground (arith, words j, h)

module _ (env : Env) where
  pub gpr_read-IsMachine : (idx : ℕ) → Keeps IsMachine IsWord (gpr_read env idx)
  unfolding gpr_read
  gpr_read-IsMachine idx m m' v typed h =
      let e = checked-ok env.rt_check idx env.nr_gpr (ok (m.cpu.gpr idx, m)) (v, m') h in
      subst (λ (r : ℕ × Machine). IsMachine r.1 × IsWord r.0) (ok_cancel e)
        (typed, typed.gpr_words idx)

  pub gpr_write-IsMachine : (idx v : ℕ) → v < 2 ^ 32 → Keeps IsMachine Nothing (gpr_write env idx v)
  unfolding gpr_write
  gpr_write-IsMachine idx v small m m' u typed h =
      let written : Machine = record m { cpu = record (m.cpu) { gpr = update m.cpu.gpr idx v } } in
      let e = checked-ok env.rt_check idx env.nr_gpr (ok (tt, written)) (u, m') h in
      subst (λ (r : Unit {0} × Machine). IsMachine r.1 × Unit {0}) (ok_cancel e)
        (
          record {
            gpr_words = update-AllWords m.cpu.gpr idx v typed.gpr_words small;
            csr_words = typed.csr_words;
            pc_word = typed.pc_word;
            priv_in = typed.priv_in;
            bus_bytes = typed.bus_bytes;
          },
          tt,
        )

  pub csr_read-IsMachine : (idx : ℕ) → Keeps IsMachine IsWord (csr_read env idx)
  unfolding csr_read
  csr_read-IsMachine idx m m' v typed h =
      let e = checked-ok env.rt_check idx 4096 (ok (m.cpu.csr idx, m)) (v, m') h in
      subst (λ (r : ℕ × Machine). IsMachine r.1 × IsWord r.0) (ok_cancel e)
        (typed, typed.csr_words idx)

  pub csr_write-IsMachine : (idx v : ℕ) → v < 2 ^ 32 → Keeps IsMachine Nothing (csr_write env idx v)
  unfolding csr_write
  csr_write-IsMachine idx v small m m' u typed h =
      let written : Machine = record m { cpu = record (m.cpu) { csr = update m.cpu.csr idx v } } in
      let e = checked-ok env.rt_check idx 4096 (ok (tt, written)) (u, m') h in
      subst (λ (r : Unit {0} × Machine). IsMachine r.1 × Unit {0}) (ok_cancel e)
        (
          record {
            gpr_words = typed.gpr_words;
            csr_words = update-AllWords m.cpu.csr idx v typed.csr_words small;
            pc_word = typed.pc_word;
            priv_in = typed.priv_in;
            bus_bytes = typed.bus_bytes;
          },
          tt,
        )

with_bus : (m : Machine) (b : Bus) → IsMachine m → IsBus b → IsMachine (record m { bus = b })
with_bus m b typed bytes = record {
  gpr_words = typed.gpr_words;
  csr_words = typed.csr_words;
  pc_word = typed.pc_word;
  priv_in = typed.priv_in;
  bus_bytes = bytes;
}

module _ (env : Env) (calls : CallsKeepBytes env) where
  pub mem_read-IsMachine : (addr len : ℕ) → Keeps IsMachine IsWord (mem_read env addr len)
  unfolding mem_read
  mem_read-IsMachine addr len m m' v typed h =
      let ((w, b), read, e) = and_then-ok (paddr_read env addr len m.bus) _ h in
      let (bytes, small) = paddr_read-IsBus env calls addr len w m.bus b typed.bus_bytes read in
      subst (λ (r : ℕ × Machine). IsMachine r.1 × IsWord r.0) (ok_cancel e)
        (with_bus m b typed bytes, small)

  pub mem_write-IsMachine : (addr len v : ℕ) → Keeps IsMachine Nothing (mem_write env addr len v)
  unfolding mem_write
  mem_write-IsMachine addr len v m m' u typed h =
      let (b, wrote, e) = and_then-ok (paddr_write env addr len v m.bus) _ h in
      let bytes = paddr_write-IsBus env calls addr len v m.bus b typed.bus_bytes wrote in
      subst (λ (r : Unit {0} × Machine). IsMachine r.1 × Unit {0}) (ok_cancel e)
        (with_bus m b typed bytes, tt)

pub set_nemu_state-IsMachine :
    (state : Status) (pc ret : ℕ) → Keeps IsMachine Nothing (set_nemu_state state pc ret)
unfolding set_nemu_state
set_nemu_state-IsMachine state pc ret m m' u typed h =
    subst (λ (r : Unit {0} × Machine). IsMachine r.1 × Unit {0}) (ok_cancel h)
      (
        record {
          gpr_words = typed.gpr_words;
          csr_words = typed.csr_words;
          pc_word = typed.pc_word;
          priv_in = typed.priv_in;
          bus_bytes = typed.bus_bytes;
        },
        tt,
      )
