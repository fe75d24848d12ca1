-- ===== src/Memory/BusBytes.antt =====
-- The bus, whose memory holds bytes before and after every access.
use bailuwan.Memory.Host.{host_read, host_write}
use mathlib.Core.Path.{subst}
use bailuwan.Memory.Bytes.{host_write-IsBytes, host_read-lt, IsBytes}
use bailuwan.Base.{
  ◌-◌, ◌&&◌, ℕ, ◌+◌, ◌^◌, ◌<◌, ◌≡◌, Bool, Bool-cases, inl, inr, arith, leb, Option, none, some,
  false, true,
}
use bailuwan.Base.Run.{and_then, undefined, Run, ok, stop, stop≢ok, ok_cancel, and_then-ok}
use bailuwan.Memory.Bus.{Bus, Env, IoMap}
use bailuwan.Memory.Map.{
  io_space_max, map_write_at, map_read_at, map_read, map_write, invoke_callback, check_bound,
}
use bailuwan.Memory.Mmio.{in_pmem, mmio_read, mmio_write, fetch_mmio_map}
use bailuwan.Memory.Paddr.{guest_to_host, pmem_read, pmem_write, paddr_read, paddr_write}

pub record IsBus (b : Bus) : Type 0 where
  pub pmem_bytes : IsBytes b.pmem
  pub io_bytes : IsBytes b.io_space

-- The functions behind the function pointers of the devices store bytes.
abbrev pub CallsKeepBytes : Env → Type 0
CallsKeepBytes env =
    (c offset len : ℕ) (is_write : Bool) (b b' : Bus)
    → IsBus b
    → env.call c offset len is_write b ≡ ok b'
    → IsBus b'

module _ (env : Env) (calls : CallsKeepBytes env) where
  invoke_callback-IsBus :
      (c : Option ℕ) (offset len : ℕ) (is_write : Bool) (b b' : Bus)
      → IsBus b
      → invoke_callback env c offset len is_write b ≡ ok b'
      → IsBus b'
  unfolding invoke_callback
  invoke_callback-IsBus none offset len is_write b b' v h =
      subst (λ (t : Bus). IsBus t) (ok_cancel h) v
  invoke_callback-IsBus (some c) offset len is_write b b' v h = calls c offset len is_write b b' v h

  map_read-IsBus :
      (addr len : ℕ) (map : Option IoMap) (b b' : Bus) (v : ℕ)
      → IsBus b
      → map_read env addr len map b ≡ ok (v, b')
      → IsBus b' × (v < 2 ^ 32)
  unfolding map_read map_read_at
  map_read-IsBus addr len none b b' v typed h = elim (Bool-cases b.in_difftest_tracesim) [
    | inl batch ↦
        subst (λ (r : ℕ × Bus). IsBus r.1 × (r.0 < 2 ^ 32)) (ok_cancel (rw batch at h))
          (record { pmem_bytes = typed.pmem_bytes; io_bytes = typed.io_bytes }, omega arith)
    | inr alone ↦ absurd (stop≢ok (rw alone at h))
  ]
  map_read-IsBus addr len (some map) b b' v typed h = elim (Bool-cases (leb 1 len && leb len 8)) [
    | inl size ↦ elim (Bool-cases (check_bound (some map) addr)) [
      | inl inside ↦
          let (b1, called, h1) =
            and_then-ok (invoke_callback env map.callback (addr - map.low) len false b) _
              (rw (size, inside) at h) in
          let typed1 =
            invoke_callback-IsBus map.callback (addr - map.low) len false b b1 typed called in
          let (ret, read, h2) =
            and_then-ok
              (host_read env.rt_check io_space_max b1.io_space (map.space + (addr - map.low)) len) _
              h1 in
          subst (λ (r : ℕ × Bus). IsBus r.1 × (r.0 < 2 ^ 32)) (ok_cancel h2)
            (
              typed1,
              host_read-lt env.rt_check io_space_max b1.io_space (map.space + (addr - map.low)) len
                  ret typed1.io_bytes read,
            )
      | inr outside ↦ absurd (stop≢ok (rw (size, outside) at h))
    ]
    | inr odd ↦ absurd (stop≢ok (rw odd at h))
  ]

  map_write-IsBus :
      (addr len v : ℕ) (map : Option IoMap) (b b' : Bus)
      → IsBus b
      → map_write env addr len v map b ≡ ok b'
      → IsBus b'
  unfolding map_write map_write_at
  map_write-IsBus addr len v none b b' typed h = elim (Bool-cases b.in_difftest_tracesim) [
    | inl batch ↦
        subst (λ (t : Bus). IsBus t) (ok_cancel (rw batch at h))
          (record { pmem_bytes = typed.pmem_bytes; io_bytes = typed.io_bytes })
    | inr alone ↦ absurd (stop≢ok (rw alone at h))
  ]
  map_write-IsBus addr len v (some map) b b' typed h = elim (Bool-cases (leb 1 len && leb len 8)) [
    | inl size ↦ elim (Bool-cases (check_bound (some map) addr)) [
      | inl inside ↦
          let at = map.space + (addr - map.low) in
          let (io, wrote, h1) =
            and_then-ok (host_write env.rt_check io_space_max b.io_space at len v) _
              (rw (size, inside) at h) in
          let io_typed =
            host_write-IsBytes env.rt_check io_space_max b.io_space at len v io typed.io_bytes
              wrote in
          invoke_callback-IsBus map.callback (addr - map.low) len true (record b { io_space = io })
            b' (record { pmem_bytes = typed.pmem_bytes; io_bytes = io_typed }) h1
      | inr outside ↦ absurd (stop≢ok (rw (size, outside) at h))
    ]
    | inr odd ↦ absurd (stop≢ok (rw odd at h))
  ]

  host_lt :
      (at : Option ℕ) (len v : ℕ) (b : Bus)
      → IsBus b
      → ◌≡◌ {A = Run ℕ}
          (elim at [
            | none ↦ stop undefined
            | some p ↦ host_read env.rt_check env.msize b.pmem p len
          ])
          (ok v)
      → v < 2 ^ 32
  host_lt none len v b typed h = absurd (stop≢ok h)
  host_lt (some p) len v b typed h =
      host_read-lt env.rt_check env.msize b.pmem p len v typed.pmem_bytes h

  host_IsBus :
      (at : Option ℕ) (len v : ℕ) (b b' : Bus)
      → IsBus b
      → ◌≡◌ {A = Run Bus}
          (elim at [
            | none ↦ stop undefined
            | some p ↦
                and_then
                  (host_write env.rt_check env.msize b.pmem p len v)
                  λ m. ok (record b { pmem = m })
          ])
          (ok b')
      → IsBus b'
  host_IsBus none len v b b' typed h = absurd (stop≢ok h)
  host_IsBus (some p) len v b b' typed h =
      let (m, wrote, h1) = and_then-ok (host_write env.rt_check env.msize b.pmem p len v) _ h in
      let m_typed =
        host_write-IsBytes env.rt_check env.msize b.pmem p len v m typed.pmem_bytes wrote in
      subst (λ (t : Bus). IsBus t) (ok_cancel h1)
        (record { pmem_bytes = m_typed; io_bytes = typed.io_bytes })

  pmem_read-lt : (addr len v : ℕ) (b : Bus) → IsBus b → pmem_read env addr len b ≡ ok v → v < 2 ^ 32
  unfolding pmem_read
  pmem_read-lt addr len v b typed h = host_lt (guest_to_host env addr) len v b typed h

  pmem_write-IsBus :
      (addr len v : ℕ) (b b' : Bus) → IsBus b → pmem_write env addr len v b ≡ ok b' → IsBus b'
  unfolding pmem_write
  pmem_write-IsBus addr len v b b' typed h = host_IsBus (guest_to_host env addr) len v b b' typed h

  pub paddr_read-IsBus :
      (addr len v : ℕ) (b b' : Bus)
      → IsBus b
      → paddr_read env addr len b ≡ ok (v, b')
      → IsBus b' × (v < 2 ^ 32)
  unfolding paddr_read mmio_read
  paddr_read-IsBus addr len v b b' typed h = elim (Bool-cases (in_pmem env addr)) [
    | inl inside ↦
        let (w, read, e) = and_then-ok (pmem_read env addr len b) _ (rw inside at h) in
        subst (λ (r : ℕ × Bus). IsBus r.1 × (r.0 < 2 ^ 32)) (ok_cancel e)
          (typed, pmem_read-lt addr len w b typed read)
    | inr outside ↦ elim (Bool-cases env.device) [
      | inl devices ↦
          map_read-IsBus addr len (fetch_mmio_map addr b) b b' v typed (rw (outside, devices) at h)
      | inr nothing ↦ absurd (stop≢ok (rw (outside, nothing) at h))
    ]
  ]

  pub paddr_write-IsBus :
      (addr len v : ℕ) (b b' : Bus) → IsBus b → paddr_write env addr len v b ≡ ok b' → IsBus b'
  unfolding paddr_write mmio_write
  paddr_write-IsBus addr len v b b' typed h = elim (Bool-cases (in_pmem env addr)) [
    | inl inside ↦ pmem_write-IsBus addr len v b b' typed (rw inside at h)
    | inr outside ↦ elim (Bool-cases env.device) [
      | inl devices ↦
          map_write-IsBus addr len v (fetch_mmio_map addr b) b b' typed (rw (outside, devices) at h)
      | inr nothing ↦ absurd (stop≢ok (rw (outside, nothing) at h))
    ]
  ]
