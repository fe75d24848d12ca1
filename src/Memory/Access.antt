-- ===== src/Memory/Access.antt =====
-- Accesses of physical memory: when they return, what they read, and what a write changes.
use bailuwan.Memory.Store.{load-store, load-store_apart}
use bailuwan.Base.{
  inr, inl, leb, Bool-cases, ◌%◌, ℕ, ◌+◌, ◌-◌, ◌^◌, ◌≤◌, ◌<◌, ◌≡◌, ◌⊎◌, ◌↔◌, Bool, true, arith,
}
use bailuwan.Base.Run.{ok, stop, undefined, and_then}
use bailuwan.Memory.Host.{Memory, load, store, deref, assign, host_read, host_write}
use bailuwan.Memory.Bus.{Bus, Env}
use bailuwan.Memory.Mmio.{in_pmem}
use bailuwan.Memory.Paddr.{pmem_read, pmem_write, paddr_read, paddr_write}

-- The physical memory does not reach past the 32-bit address space.
abbrev pub Fits : Env → Type 0
Fits env = env.mbase + env.msize ≤ 2 ^ 32

-- A width that `host_read` and `host_write` know.
abbrev pub IsLen : ℕ → Type 0
IsLen len = (len ≡ 1) ⊎ (len ≡ 2) ⊎ (len ≡ 4)

-- The whole access lies in physical memory.
abbrev pub Inside : Env → ℕ → ℕ → Type 0
Inside env addr len = (env.mbase ≤ addr) × (addr + len ≤ env.mbase + env.msize)

pub host_read-deref :
    (rt : Bool) (size p len : ℕ) (m : Memory)
    → IsLen len
    → host_read rt size m p len ≡ deref size m p len
unfolding host_read
host_read-deref rt size p len m h = ground arith

pub host_write-assign :
    (rt : Bool) (size p len v : ℕ) (m : Memory)
    → IsLen len
    → host_write rt size m p len v ≡ assign size m p len v
unfolding host_write
host_write-assign rt size p len v m h = ground arith

module _ (env : Env) (fits : Fits env) where
  pub in_pmem_iff :
      (addr : ℕ)
      → addr < 2 ^ 32
      → (in_pmem env addr ≡ true) ↔ ((env.mbase ≤ addr) × (addr < env.mbase + env.msize))
  unfolding in_pmem
  in_pmem_iff addr h = ground arith

module _ (env : Env) (addr len : ℕ) (width : IsLen len) (b : Bus) where
  pmem_read-deref :
      env.mbase ≤ addr → pmem_read env addr len b ≡ deref env.msize b.pmem (addr - env.mbase) len
  unfolding pmem_read
  pmem_read-deref h =
      ground (arith, host_read-deref env.rt_check env.msize (addr - env.mbase) len b.pmem)

  pmem_write-assign :
      (v : ℕ)
      → env.mbase ≤ addr
      → pmem_write env addr len v b
        ≡ and_then
            (assign env.msize b.pmem (addr - env.mbase) len v)
            (λ m. ok (record b { pmem = m }))
  unfolding pmem_write
  pmem_write-assign v h =
      ground (arith, host_write-assign env.rt_check env.msize (addr - env.mbase) len v b.pmem)

module _ (env : Env) (fits : Fits env) (addr len : ℕ) (width : IsLen len) (b : Bus) where
  -- A read inside returns the little-endian word at the offset from CONFIG_MBASE.
  pub paddr_read-load :
      Inside env addr len → paddr_read env addr len b ≡ ok (load b.pmem (addr - env.mbase) len, b)
  unfolding paddr_read deref
  paddr_read-load inside = ground (arith, pmem_read-deref env addr len width b)

  -- A write inside changes `len` bytes of physical memory.
  pub paddr_write-store :
      (v : ℕ)
      → Inside env addr len
      → paddr_write env addr len v b
        ≡ ok (record b { pmem = store b.pmem (addr - env.mbase) len v })
  unfolding paddr_write assign
  paddr_write-store v inside = ground (arith, pmem_write-assign env addr len width b v)

  -- An access that starts in physical memory and ends behind it leaves the array.
  pub paddr_read_past_end :
      env.mbase ≤ addr
      → addr < env.mbase + env.msize
      → env.mbase + env.msize < addr + len
      → paddr_read env addr len b ≡ stop undefined
  unfolding paddr_read deref
  paddr_read_past_end lo hi past = ground (arith, pmem_read-deref env addr len width b)

  pub paddr_write_past_end :
      (v : ℕ)
      → env.mbase ≤ addr
      → addr < env.mbase + env.msize
      → env.mbase + env.msize < addr + len
      → paddr_write env addr len v b ≡ stop undefined
  unfolding paddr_write assign
  paddr_write_past_end v lo hi past = ground (arith, pmem_write-assign env addr len width b v)

-- A value written to physical memory is read back, cut to the width of the access.
pub paddr_read-paddr_write :
    (env : Env) (addr len v : ℕ) (b : Bus)
    → Fits env
    → IsLen len
    → Inside env addr len
    → (b' : Bus) × (paddr_write env addr len v b ≡ ok b')
      × (paddr_read env addr len b' ≡ ok (v % 256 ^ len, b'))
paddr_read-paddr_write env addr len v b fits width inside =
    let b' : Bus = record b { pmem = store b.pmem (addr - env.mbase) len v } in
    (
      b',
      paddr_write-store env fits addr len width b v inside,
      rw (
        paddr_read-load env fits addr len width b' inside,
        load-store len (addr - env.mbase) v b.pmem,
      ),
    )

-- A write to physical memory does not change what is read at a disjoint range, in either order.
pub paddr_read-paddr_write_apart :
    (env : Env) (addr len v q k : ℕ) (b : Bus)
    → Fits env
    → IsLen len
    → IsLen k
    → Inside env addr len
    → Inside env q k
    → (q + k ≤ addr) ⊎ (addr + len ≤ q)
    → (b' : Bus) × (n : ℕ) × (paddr_write env addr len v b ≡ ok b')
      × (paddr_read env q k b ≡ ok (n, b))
      × (paddr_read env q k b' ≡ ok (n, b'))
paddr_read-paddr_write_apart env addr len v q k b fits width width' inside inside' apart =
    let b' : Bus = record b { pmem = store b.pmem (addr - env.mbase) len v } in
    let kept = load-store_apart k (q - env.mbase) len (addr - env.mbase) v b.pmem (ground arith) in
    (
      b',
      load b.pmem (q - env.mbase) k,
      paddr_write-store env fits addr len width b v inside,
      paddr_read-load env fits q k width' b inside',
      rw (paddr_read-load env fits q k width' b' inside', kept),
    )

-- For an address that `in_pmem` accepts, a read and a write of 1, 2 or 4 bytes leave the array of
-- physical memory, which is undefined, exactly when the access ends behind the memory's end.
pub paddr_undefined_iff :
    (env : Env) (addr len v : ℕ) (b : Bus)
    → Fits env
    → IsLen len
    → addr < 2 ^ 32
    → in_pmem env addr ≡ true
    → ((paddr_read env addr len b ≡ stop undefined) ↔ (env.mbase + env.msize < addr + len))
      × ((paddr_write env addr len v b ≡ stop undefined) ↔ (env.mbase + env.msize < addr + len))
paddr_undefined_iff env addr len v b fits width word here =
    let range = (in_pmem_iff env fits addr word).0 here in
    elim (Bool-cases (leb (addr + len) (env.mbase + env.msize))) [
      | inl inside ↦
          let p = paddr_read-load env fits addr len width b (range.0, ground arith) in
          let q = paddr_write-store env fits addr len width b v (range.0, ground arith) in
          ((λ e. cc, λ h. absurd (ground arith)), (λ e. cc, λ h. absurd (ground arith)))
      | inr past ↦
          let p = paddr_read_past_end env fits addr len width b range.0 range.1 in
          let q = paddr_write_past_end env fits addr len width b v range.0 range.1 in
          ((λ e. ground arith, p), (λ e. ground arith, q))
    ]
