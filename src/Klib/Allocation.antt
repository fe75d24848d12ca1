-- ===== src/Klib/Allocation.antt =====
-- The blocks that `malloc` of abstract-machine/klib/src/stdlib.c gives out.
use bailuwan.Base.Bits.{bit_and_mask, bit_and_shifted}
use bailuwan.Base.{
  Option, inr, refl, inl, false, ltb, ◌==◌, Bool-cases, if◌then◌else◌, ℕ, ◌+◌, ◌-◌, ◌*◌, ◌/◌, ◌%◌,
  ◌^◌, ◌<◌, ◌≤◌, ◌≡◌, List, [], ◌∷◌, none, some, arith,
}
use bailuwan.Klib.Stdlib.{malloc, round_up}

round_up_lem : (a : ℕ) → a + 7 < 2 ^ 32 → round_up a ≡ (a + 7) / 8 * 8
unfolding round_up
round_up_lem a small =
    let exact : (a + 7) % 2 ^ 32 ≡ a + 7 = omega arith in
    let high = bit_and_shifted 3 (a + 7) (2 ^ 29 - 1) in
    let mask = bit_and_mask 29 ((a + 7) / 8) in rw exact (omega (arith, high, mask))

-- A block of memory, by its address and its size.
pub record Block : Type 0 where
  pub at : ℕ
  pub size : ℕ

add_block : Option ℕ → ℕ → List Block → List Block
add_block none size bs = bs
add_block (some at) size bs = record { at = at; size = size } ∷ bs

-- The blocks that a sequence of calls gives out, the first one first.
unfoldable pub mallocs : ℕ → ℕ → List ℕ → ℕ → List Block
unfolding add_block
mallocs heap_start heap_end [] alloc_base = []
mallocs heap_start heap_end (size ∷ sizes) alloc_base =
    let (p, alloc_base') = malloc heap_start heap_end size alloc_base in
    add_block p size (mallocs heap_start heap_end sizes alloc_base')

-- Blocks that begin at `low` or later, one behind the other, each at a multiple of 8 and inside the
-- heap, of which the end is `high`.
pub data InOrder (high : ℕ) : ℕ → List Block → Type 0 where
  no_block : (low : ℕ) → InOrder high low []
  block :
      (low : ℕ) (b : Block) (bs : List Block)
      → low ≤ b.at
      → b.at % 8 ≡ 0
      → b.at + b.size ≤ high
      → InOrder high (b.at + b.size) bs
      → InOrder high low (b ∷ bs)

-- No size is so large that the address wraps.
abbrev pub AllSmall : ℕ → List ℕ → Type 0
AllSmall heap_end [] = Unit {0}
AllSmall heap_end (size ∷ sizes) = (heap_end + size + 16 < 2 ^ 32) × AllSmall heap_end sizes

InOrder-le :
    {high low low' : ℕ} {bs : List Block} → low' ≤ low → InOrder high low bs → InOrder high low' bs
InOrder-le h (no_block _) = no_block _
InOrder-le h (block low b bs lo al hi rest) = block _ b bs (omega arith) al hi rest

-- A call that is not the first one.
malloc-later :
    (heap_start heap_end size base : ℕ)
    → base % 8 ≡ 0
    → base ≤ heap_end + 7
    → heap_end + size + 16 < 2 ^ 32
    → malloc heap_start heap_end size base ≡ (
        let new_base = base + (size + 7) / 8 * 8 in
        if ltb heap_end new_base then (none, base) else (some base, new_base))
unfolding malloc
malloc-later heap_start heap_end size base aligned low small =
    let later : (base == 2 ^ 32 - 1) ≡ false = ground arith in
    let exact : (base + (size + 7) / 8 * 8) % 2 ^ 32 ≡ base + (size + 7) / 8 * 8 = omega arith in
    rw (later, round_up_lem size (omega arith), exact) refl

mallocs-later :
    (heap_start heap_end : ℕ) (sizes : List ℕ) (base : ℕ)
    → base % 8 ≡ 0
    → base ≤ heap_end + 7
    → AllSmall heap_end sizes
    → InOrder heap_end base (mallocs heap_start heap_end sizes base)
unfolding mallocs
mallocs-later heap_start heap_end [] base aligned low small = no_block base
mallocs-later heap_start heap_end (size ∷ sizes) base aligned low (fits, small) =
    let run = malloc-later heap_start heap_end size base aligned low fits in
    let new_base = base + (size + 7) / 8 * 8 in
    elim (Bool-cases (ltb heap_end new_base)) [
      | inl full ↦ rw (run, full) (mallocs-later heap_start heap_end sizes base aligned low small)
      | inr room ↦
          let inside : new_base ≤ heap_end = ground arith in
          let rest =
            mallocs-later heap_start heap_end sizes new_base (omega arith) (omega arith) small in
          rw (run, room)
            (block base (record { at = base; size = size })
              (mallocs heap_start heap_end sizes new_base) (omega arith) aligned (omega arith)
              (InOrder-le (omega arith) rest))
    ]

-- From the first call on, the blocks that are given out lie in the heap, begin at multiples of 8,
-- and do not overlap, while no size is so large that an address wraps.
pub mallocs-InOrder :
    (heap_start heap_end : ℕ) (sizes : List ℕ)
    → heap_start ≤ heap_end
    → AllSmall heap_end sizes
    → InOrder heap_end heap_start (mallocs heap_start heap_end sizes (2 ^ 32 - 1))
mallocs-InOrder heap_start heap_end [] order small = unfold mallocs in no_block heap_start
mallocs-InOrder heap_start heap_end (size ∷ sizes) order (fits, small) =
    let base = (heap_start + 7) / 8 * 8 in
    let start : round_up heap_start ≡ base = round_up_lem heap_start (omega arith) in
    let not_first : (base == 2 ^ 32 - 1) ≡ false = ground arith in
    let same : malloc heap_start heap_end size (2 ^ 32 - 1) ≡ malloc heap_start heap_end size base =
      unfold malloc in rw (start, not_first) refl in
    let later =
      mallocs-later heap_start heap_end (size ∷ sizes) base (omega arith) (omega arith)
        (fits, small) in
    InOrder-le {low = base} (omega arith) (unfold mallocs in rw same later)
