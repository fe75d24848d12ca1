-- ===== src/Memory/Paddr.antt =====
-- nemu/src/memory/paddr.c and vaddr.c: physical memory, the devices behind it, and the virtual
-- addresses, which are the physical ones. The logging of CONFIG_MTRACE is left out.
use bailuwan.Base.{
  ℕ, zero, suc, ◌+◌, ◌-◌, ◌%◌, ◌^◌, Option, none, some, List, [], ◌∷◌, ltb, if◌then◌else◌,
}
use bailuwan.Base.Run.{Run, ok, stop, panic, undefined, Cmd, and_then}
use bailuwan.Memory.Host.{host_read, host_write}
use bailuwan.Memory.Bus.{Bus, Env}
use bailuwan.Memory.Mmio.{in_pmem, mmio_read, mmio_write}

module _ (env : Env) where
  -- An offset in `pmem`; `none` is an address before it.
  unfoldable pub guest_to_host : ℕ → Option ℕ
  guest_to_host paddr = if ltb paddr env.mbase then none else some (paddr - env.mbase)

  unfoldable pub host_to_guest : ℕ → ℕ
  host_to_guest haddr = (haddr + env.mbase) % 2 ^ 32

  unfoldable pub pmem_read : ℕ → ℕ → Bus → Run ℕ
  unfolding guest_to_host host_read
  pmem_read addr len b = elim (guest_to_host addr) [
    | none ↦ stop undefined
    | some p ↦ host_read env.rt_check env.msize b.pmem p len
  ]

  unfoldable pub pmem_write : ℕ → ℕ → ℕ → Bus → Run Bus
  unfolding guest_to_host host_write
  pmem_write addr len v b = elim (guest_to_host addr) [
    | none ↦ stop undefined
    | some p ↦
        and_then (host_write env.rt_check env.msize b.pmem p len v) λ m. ok (record b { pmem = m })
  ]

  unfoldable pub paddr_read : ℕ → ℕ → Cmd Bus ℕ
  unfolding in_pmem pmem_read mmio_read
  paddr_read addr len b =
      if in_pmem env addr
      then and_then (pmem_read addr len b) (λ ret. ok (ret, b))
      else if env.device
      then mmio_read env addr len b
      else stop panic

  unfoldable pub paddr_write : ℕ → ℕ → ℕ → Bus → Run Bus
  unfolding in_pmem pmem_write mmio_write
  paddr_write addr len v b =
      if in_pmem env addr
      then pmem_write addr len v b
      else if env.device
      then mmio_write env addr len v b
      else stop panic

  unfoldable pub copy_to_paddr : ℕ → List ℕ → Bus → Run Bus
  unfolding paddr_write
  copy_to_paddr addr [] b = ok b
  copy_to_paddr addr (v ∷ buf) b =
      and_then (paddr_write addr 1 v b) λ b'. copy_to_paddr ((addr + 1) % 2 ^ 32) buf b'

  unfoldable pub copy_from_paddr : ℕ → ℕ → Cmd Bus (List ℕ)
  unfolding paddr_read
  copy_from_paddr addr zero b = ok ([], b)
  copy_from_paddr addr (suc len) b = and_then (paddr_read addr 1 b) λ (v, b').
      and_then (copy_from_paddr ((addr + 1) % 2 ^ 32) len b') λ (vs, b''). ok (v % 256 ∷ vs, b'')

  -- nemu/src/memory/vaddr.c
  abbrev pub vaddr_ifetch : ℕ → ℕ → Cmd Bus ℕ
  vaddr_ifetch addr len = paddr_read addr len

  abbrev pub vaddr_read : ℕ → ℕ → Cmd Bus ℕ
  vaddr_read addr len = paddr_read addr len

  abbrev pub vaddr_write : ℕ → ℕ → ℕ → Bus → Run Bus
  vaddr_write addr len v = paddr_write addr len v
