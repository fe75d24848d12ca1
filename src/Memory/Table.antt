-- ===== src/Memory/Table.antt =====
-- The table of memory-mapped devices: registered ranges are disjoint, so an address has one owner.
use mathlib.Core.Path.{subst}
use bailuwan.Base.Run.{ok}
use bailuwan.Memory.Map.{find_map_by_addr}
use bailuwan.Memory.Mmio.{nr_map_max, in_pmem, add_mmio_map, overlaps_any}
use bailuwan.Base.{
  sym, ap, zero, length-append, inr, inl, ◌%◌, ◌&&◌, suc, ◌-◌, leb, ◌^◌, Bool-cases, arith, ◌≤◌,
  some, ◌+◌, [], length, false, ◌⊎◌, get_elem?, Option, ◌≡◌, ◌++◌, ◌∷◌, ◌<◌, ℕ, List,
}
use bailuwan.Memory.Bus.{Bus, Env, IoMap}

-- No address belongs to both maps.
abbrev pub Apart : IoMap → IoMap → Type 0
Apart m n = (m.high < n.low) ⊎ (n.high < m.low)

abbrev pub AllMaps : (IoMap → Type 0) → List IoMap → Type 0
AllMaps P [] = Unit {0}
AllMaps P (m ∷ ms) = P m × AllMaps P ms

abbrev pub PairwiseApart : List IoMap → Type 0
PairwiseApart [] = Unit {0}
PairwiseApart (m ∷ ms) = AllMaps (Apart m) ms × PairwiseApart ms

-- The ends of a map are no addresses of physical memory.
abbrev pub OffPmem : Env → IoMap → Type 0
OffPmem env m = (in_pmem env m.low ≡ false) × (in_pmem env m.high ≡ false)

pub record IsTable (env : Env) (b : Bus) : Type 0 where
  pub room : length b.maps ≤ nr_map_max
  pub apart : PairwiseApart b.maps
  pub off : AllMaps (OffPmem env) b.maps

AllMaps-snoc :
    (P : IoMap → Type 0) (ms : List IoMap) (n : IoMap)
    → AllMaps P ms
    → P n
    → AllMaps P (ms ++ n ∷ [])
AllMaps-snoc P [] n all p = (p, tt)
AllMaps-snoc P (m ∷ ms) n all p = (all.0, AllMaps-snoc P ms n all.1 p)

PairwiseApart-snoc :
    (ms : List IoMap) (n : IoMap)
    → PairwiseApart ms
    → AllMaps (Apart n) ms
    → PairwiseApart (ms ++ n ∷ [])
PairwiseApart-snoc [] n pairs new = (tt, tt)
PairwiseApart-snoc (m ∷ ms) n pairs new =
    (AllMaps-snoc (Apart m) ms n pairs.0 (ground arith), PairwiseApart-snoc ms n pairs.1 new.1)

overlaps_any-Apart :
    (n : IoMap) (ms : List IoMap) → overlaps_any n.low n.high ms ≡ false → AllMaps (Apart n) ms
unfolding overlaps_any
overlaps_any-Apart n [] h = tt
overlaps_any-Apart n (m ∷ ms) h = elim (Bool-cases (leb n.low m.high && leb m.low n.high)) [
  | inl e ↦ cc
  | inr e ↦ (ground arith, overlaps_any-Apart n ms (rw e at h))
]

AllMaps-get :
    (P : IoMap → Type 0) (ms : List IoMap) (i : ℕ) (m : IoMap)
    → AllMaps P ms
    → get_elem? ms i ≡ some m
    → P m
AllMaps-get P [] i m all at = cc
AllMaps-get P (n ∷ ms) zero m all at = subst P (cc) all.0
AllMaps-get P (n ∷ ms) (suc i) m all at = AllMaps-get P ms i m all.1 at

-- The map that a call of `add_mmio_map` registers.
abbrev pub new_map : ℕ → ℕ → ℕ → Option ℕ → IoMap
new_map addr space len callback = record {
  low = addr;
  high = (addr + len + 2 ^ 32 - 1) % 2 ^ 32;
  space = space;
  callback = callback;
}

appended : (env : Env) (b : Bus) (n : IoMap) → Bus
appended env b n = record b { maps = b.maps ++ n ∷ [] }

appended-IsTable :
    (env : Env) (b : Bus) (n : IoMap)
    → IsTable env b
    → length b.maps < nr_map_max
    → OffPmem env n
    → AllMaps (Apart n) b.maps
    → IsTable env (appended env b n)
unfolding appended
appended-IsTable env b n table room off apart = record {
  room = omega (arith, length-append b.maps (n ∷ []));
  apart = PairwiseApart-snoc b.maps n table.apart apart;
  off = AllMaps-snoc (OffPmem env) b.maps n table.off off;
}

add_mmio_map-appended :
    (env : Env) (addr space len : ℕ) (callback : Option ℕ) (b b' : Bus)
    → add_mmio_map env addr space len callback b ≡ ok b'
    → let n = new_map addr space len callback in
      (length b.maps < nr_map_max)
      × OffPmem env n
      × (overlaps_any n.low n.high b.maps ≡ false)
      × (appended env b n ≡ b')
unfolding add_mmio_map appended
add_mmio_map-appended env addr space len callback b b' h = ground arith

-- A call of `add_mmio_map` that returns has appended the map of `len` addresses from `addr` on,
-- and keeps the table well formed: at most 16 maps, no address in two of them, and the ends of
-- each outside physical memory.
pub add_mmio_map-IsTable :
    (env : Env) (addr space len : ℕ) (callback : Option ℕ) (b b' : Bus)
    → IsTable env b
    → add_mmio_map env addr space len callback b ≡ ok b'
    → IsTable env b' × (b'.maps ≡ b.maps ++ new_map addr space len callback ∷ [])
unfolding appended
add_mmio_map-IsTable env addr space len callback b b' table h =
    let n = new_map addr space len callback in
    let (room, off, free, e) = add_mmio_map-appended env addr space len callback b b' h in
    (
      subst (IsTable env) e
          (appended-IsTable env b n table room off (overlaps_any-Apart n b.maps free)),
      ap (λ (t : Bus). t.maps) (sym e),
    )

pub find_map-registered :
    (ms : List IoMap) (i addr : ℕ) (m : IoMap)
    → PairwiseApart ms
    → get_elem? ms i ≡ some m
    → m.low ≤ addr
    → addr ≤ m.high
    → find_map_by_addr ms addr ≡ some m
unfolding find_map_by_addr
find_map-registered [] i addr m pairs at lo hi = cc
find_map-registered (n ∷ ms) zero addr m pairs at lo hi = ground arith
find_map-registered (n ∷ ms) (suc i) addr m pairs at lo hi =
    ground (arith, find_map-registered ms i addr m, AllMaps-get (Apart n) ms i m)
