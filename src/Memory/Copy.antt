-- ===== src/Memory/Copy.antt =====
-- `copy_to_paddr` and `copy_from_paddr` move a buffer byte by byte.
use native.Mathlib.Nat.{mod-eq_of_lt}
use bailuwan.Memory.Store.{store-outside}
use bailuwan.Base.Run.{ok}
use bailuwan.Memory.Paddr.{copy_from_paddr, copy_to_paddr}
use bailuwan.Memory.Access.{paddr_read-load, paddr_write-store, Inside, Fits}
use bailuwan.Memory.Bus.{Bus, Env}
use bailuwan.Memory.Host.{load, store, Memory}
use bailuwan.Base.{
  refl, [], ap, ◌^◌, ◌%◌, inl, ◌∙◌, ◌-◌, arith, length, ◌+◌, ◌≡◌, ◌<◌, ◌∷◌, ℕ, List,
}

abbrev pub AllBytes : List ℕ → Type 0
AllBytes [] = Unit {0}
AllBytes (v ∷ vs) = (v < 256) × AllBytes vs

-- What the memory holds after the bytes have been stored one after another.
abbrev pub stored : Memory → ℕ → List ℕ → Memory
stored m p [] = m
stored m p (v ∷ vs) = stored (store m p 1 v) (p + 1) vs

stored-before : (vs : List ℕ) (m : Memory) (p i : ℕ) → i < p → stored m p vs i ≡ m i
stored-before [] m p i h = refl
stored-before (v ∷ vs) m p i h =
    stored-before vs (store m p 1 v) (p + 1) i (omega arith) ∙ store-outside 1 p v i m (inl h)

load-stored : (vs : List ℕ) (m : Memory) (p v : ℕ) → v < 256 → load (stored m p (v ∷ vs)) p 1 ≡ v
unfolding load store
load-stored vs m p v h = ground (arith, stored-before vs (store m p 1 v) (p + 1) p)

module _ (env : Env) (fits : Fits env) where
  copy_to-stored :
      (buf : List ℕ) (addr : ℕ) (b : Bus)
      → Inside env addr (length buf)
      → copy_to_paddr env addr buf b ≡ ok (record b { pmem = stored b.pmem (addr - env.mbase) buf })
  unfolding copy_to_paddr
  copy_to-stored [] addr b inside = refl
  copy_to-stored (v ∷ []) addr b inside =
      rw (paddr_write-store env fits addr 1 (inl refl) b v (omega arith))
  copy_to-stored (v ∷ w ∷ buf) addr b inside =
      let next : (addr + 1) % 2 ^ 32 ≡ addr + 1 = omega arith in
      let off : addr + 1 - env.mbase ≡ addr - env.mbase + 1 = omega arith in
      rw (paddr_write-store env fits addr 1 (inl refl) b v (omega arith), next)
        (copy_to-stored (w ∷ buf) (addr + 1)
            (record b { pmem = store b.pmem (addr - env.mbase) 1 v }) (omega arith)
          ∙ ap
              (λ (p : ℕ).
                ok (record b { pmem = stored (store b.pmem (addr - env.mbase) 1 v) p (w ∷ buf) }))
              off)

  copy_from-stored :
      (buf : List ℕ) (addr : ℕ) (m : Memory) (b : Bus)
      → AllBytes buf
      → Inside env addr (length buf)
      → copy_from_paddr env addr (length buf) (record b { pmem = stored m (addr - env.mbase) buf })
        ≡ ok (buf, record b { pmem = stored m (addr - env.mbase) buf })
  unfolding copy_from_paddr
  copy_from-stored [] addr m b bytes inside = refl
  copy_from-stored (v ∷ []) addr m b bytes inside =
      let b' : Bus = record b { pmem = stored m (addr - env.mbase) (v ∷ []) } in
      rw (
        paddr_read-load env fits addr 1 (inl refl) b' (omega arith),
        load-stored [] m (addr - env.mbase) v bytes.0,
        mod-eq_of_lt bytes.0,
      )
  copy_from-stored (v ∷ w ∷ buf) addr m b bytes inside =
      let b' : Bus = record b { pmem = stored m (addr - env.mbase) (v ∷ w ∷ buf) } in
      let next : (addr + 1) % 2 ^ 32 ≡ addr + 1 = omega arith in
      let off : addr - env.mbase + 1 ≡ addr + 1 - env.mbase = omega arith in
      let rest =
        copy_from-stored (w ∷ buf) (addr + 1) (store m (addr - env.mbase) 1 v) b bytes.1
          (omega arith) in
      rw (
        paddr_read-load env fits addr 1 (inl refl) b' (omega arith),
        load-stored (w ∷ buf) m (addr - env.mbase) v bytes.0,
        next,
        off,
        rest,
        mod-eq_of_lt bytes.0,
      )

-- Copying bytes into physical memory and back gives the bytes.
pub copy_from_paddr-copy_to_paddr :
    (env : Env) (addr : ℕ) (buf : List ℕ) (b : Bus)
    → Fits env
    → AllBytes buf
    → Inside env addr (length buf)
    → (b' : Bus) × (copy_to_paddr env addr buf b ≡ ok b')
      × (copy_from_paddr env addr (length buf) b' ≡ ok (buf, b'))
copy_from_paddr-copy_to_paddr env addr buf b fits bytes inside = (
  record b { pmem = stored b.pmem (addr - env.mbase) buf },
  copy_to-stored env fits buf addr b inside,
  copy_from-stored env fits buf addr b.pmem b bytes inside,
)
